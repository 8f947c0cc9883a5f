-- ===== src/Net/SelectPoller/Poll.antt =====
-- net/SelectPoller.cpp: `poll` and `fillActiveChannels`.
-- `select` is a parameter: it is given the bound of the descriptors and the two sets, and gives the
-- number of the events and the sets as it leaves them. `entries` is `mapChannels` in the order of its
-- descriptors. The time to wait is left out.
use yedis.Prelude.{
  ℕ, zero, suc, ◌+◌, ◌≤◌, ◌≡◌, refl, sym, ap, ◌∙◌, Bool, true, false, List, [], ◌∷◌, ◌++◌,
  append-nil, append_assoc, inl, inr, length, replicate, ltb, leb, ◌==◌, ◌||◌, if◌then◌else◌, arith,
  Bool-cases,
}
use yedis.Prelude.Int.{ℤ, pos, negsuc}
use yedis.Net.Channel.{Events, none_event, Channel, add_revents}
use yedis.Net.EpollPoller.{Poller, modify}
use yedis.Net.SelectPoller.{EventList}

-- `FD_ISSET` on a set of descriptors
abbrev pub is_set : ℕ → List ℕ → Bool
is_set fd [] = false
is_set fd (g ∷ fds) = g == fd || is_set fd fds

-- `maxfd`, `readfds` and `writefds`
pub record FdSets : Type 0 where
  pub maxfd : ℕ
  pub readfds : List ℕ
  pub writefds : List ℕ

abbrev pub put_if : Bool → ℕ → List ℕ → List ℕ
put_if b fd fds = if b then fd ∷ fds else fds

-- One round of the first loop of `poll`.
abbrev pub add_entry : Events → ℕ → FdSets → FdSets
add_entry e fd f = record {
  maxfd = if ltb f.maxfd fd then fd else f.maxfd;
  readfds = put_if e.has_in fd f.readfds;
  writefds = put_if e.has_out fd f.writefds;
}

unfoldable pub fd_sets : List (ℕ × ℕ) → (ℕ → Channel) → FdSets → FdSets
fd_sets [] channels f = f
fd_sets ((fd, p) ∷ entries) channels f =
    fd_sets entries channels (add_entry (channels p).events fd f)

abbrev pub add_if : Bool → Events → ℕ → Poller EventList → Poller EventList
add_if b e p s = if b then modify p (add_revents e) s else s

-- The events that a round adds to the channel.
abbrev pub noted : List ℕ → List ℕ → ℕ → ℕ → Poller EventList → Poller EventList
noted readfds writefds fd p s =
    add_if (is_set fd writefds) (record none_event { has_out = true }) p
      (add_if (is_set fd readfds) (record none_event { has_in = true }) p s)

-- `fillActiveChannels`, with `currentCount`
unfoldable pub select_fill :
    ℕ → List ℕ → List ℕ → ℕ → List (ℕ × ℕ) → List ℕ → Poller EventList → List ℕ × Poller EventList
select_fill num readfds writefds count [] active s = (active, s)
select_fill num readfds writefds count ((fd, p) ∷ entries) active s =
    let s' = noted readfds writefds fd p s in
    elim (is_set fd readfds || is_set fd writefds) [
      | false ↦ select_fill num readfds writefds count entries active s'
      | true ↦ elim (leb num (count + 1)) [
        | true ↦ (active ++ p ∷ [], s')
        | false ↦ select_fill num readfds writefds (count + 1) entries (active ++ p ∷ []) s'
      ]
    ]

abbrev pub Select : Type 0
Select = ℕ → List ℕ → List ℕ → ℤ × List ℕ × List ℕ

-- `m_vecEvents.resize(m_vecEvents.size() * 2)`
abbrev pub doubled : EventList → EventList
doubled l = l ++ replicate (length l) (0, none_event)

abbrev pub resized : ℕ → List ℕ × Poller EventList → List ℕ × Poller EventList
resized num (active, s) =
    (active, if num == length s.kernel then record s { kernel = doubled s.kernel } else s)

abbrev pub selected :
    ℤ → List ℕ → List ℕ → List (ℕ × ℕ) → Poller EventList → List ℕ × Poller EventList
selected (negsuc n) readfds writefds entries s = ([], s)
selected (pos zero) readfds writefds entries s = ([], s)
selected (pos (suc n)) readfds writefds entries s =
    resized (suc n) (select_fill (suc n) readfds writefds 0 entries [] s)

unfoldable pub select_poll : Select → List (ℕ × ℕ) → Poller EventList → List ℕ × Poller EventList
unfolding fd_sets select_fill
select_poll select entries s =
    let f = fd_sets entries s.channels (record { maxfd = 0; readfds = []; writefds = [] }) in
    let (num, readfds, writefds) = select (f.maxfd + 1) f.readfds f.writefds in
    selected num readfds writefds entries s

-- The channels with a descriptor in one of the sets.
abbrev pub ready : List ℕ → List ℕ → List (ℕ × ℕ) → List ℕ
ready readfds writefds [] = []
ready readfds writefds ((fd, p) ∷ entries) =
    if is_set fd readfds || is_set fd writefds
    then p ∷ ready readfds writefds entries
    else ready readfds writefds entries

length-nil : (l : List ℕ) → length l ≡ 0 → l ≡ []
length-nil [] h = refl
length-nil (x ∷ l) h = absurd (omega arith)

select_fill-ready :
    (num : ℕ) (readfds writefds : List ℕ) (count : ℕ) (entries : List (ℕ × ℕ)) (active : List ℕ)
    (s : Poller EventList)
    → count + length (ready readfds writefds entries) ≤ num
    → (select_fill num readfds writefds count entries active s).0
      ≡ active ++ ready readfds writefds entries
unfolding select_fill
select_fill-ready num r w count [] active s h = sym (append-nil active)
select_fill-ready num r w count ((fd, p) ∷ entries) active s h =
    let rest = ready r w entries in
    let s' = noted r w fd p s in
    let left : Bool → List ℕ = λ b. if b then p ∷ rest else rest in
    elim (Bool-cases (is_set fd r || is_set fd w)) [
      | inr e ↦
          rw (e, select_fill)
            (select_fill-ready num r w count entries active s'
              (omega (arith, h, ap (λ b. length (left b)) e)))
      | inl e ↦ elim (Bool-cases (leb num (count + 1))) [
        | inl d ↦
            let reached : num ≤ count + 1 = ground arith in
            rw (e, select_fill, d)
              (ap (λ l. active ++ p ∷ l)
                (sym (length-nil rest (omega (arith, h, reached, ap (λ b. length (left b)) e)))))
        | inr d ↦
            rw (e, select_fill, d)
              (select_fill-ready num r w (count + 1) entries (active ++ p ∷ []) s'
                  (omega (arith, h, ap (λ b. length (left b)) e))
                ∙ append_assoc active (p ∷ []) rest)
      ]
    ]

-- When `select` gives a number of events that is above 0 and not below the number of the channels with a
-- descriptor in one of the sets that it leaves, `poll` passes on those channels, all of them, each once
-- and in the order of their descriptors: it does not stop before the last.
select_poll-ready :
    (select : Select) (entries : List (ℕ × ℕ)) (s : Poller EventList) (f : FdSets) (n : ℕ)
    (readfds writefds : List ℕ)
    → f ≡ fd_sets entries s.channels (record { maxfd = 0; readfds = []; writefds = [] })
    → select (f.maxfd + 1) f.readfds f.writefds ≡ (pos (suc n), readfds, writefds)
    → length (ready readfds writefds entries) ≤ suc n
    → (select_poll select entries s).0 ≡ ready readfds writefds entries
unfolding select_poll
select_poll-ready select entries s f n r w sets answer enough =
    let ask : FdSets → ℤ × List ℕ × List ℕ = λ f. select (f.maxfd + 1) f.readfds f.writefds in
    let after : ℤ × List ℕ × List ℕ → List ℕ × Poller EventList =
      λ q. selected q.0 q.1 q.2 entries s in
    ap (λ q. (after q).0) (sym (ap ask sets) ∙ answer)
    ∙ select_fill-ready (suc n) r w 0 entries [] s (omega (arith, enough))
