-- ===== src/Net/EpollPoller/Registered.antt =====
-- The map of a poller and the indices of its channels.
use yedis.Prelude.{
  ℕ, ◌≡◌, ◌≢◌, refl, sym, ap, subst, ◌∙◌, Bool, true, false, Option, none, some, List, [], ◌∷◌,
  ◌++◌, not, ◌&&◌, inl, inr, arith,
}
use mathlib.Core.Option.{some-injective, none-ne-some}
use yedis.Prelude.Maps.{
  put, put-same, put-other, put-All, put-keeps, put-cases, same_or_not, if-cases,
}
use yedis.Net.Channel.{
  Events, Index, new_index, added_index, deleted_index, Channel, set_index, set_events,
  is_none_event,
}
use yedis.Net.EpollPoller.{
  Poller, EpollCtl, delete_channel, ctl_del, is_there, points_to, fd_of, modify, has_channel,
  update_at, update_channel, remove_channel, fill_active_channels,
}

abbrev pub new_at : Index → Bool
new_at new_index = true
new_at added_index = false
new_at deleted_index = false

abbrev pub is_new : Channel → Bool
is_new c = new_at c.index

is_there-false : (o : Option ℕ) → is_there o ≡ false → o ≡ none
is_there-false none h = refl
is_there-false (some q) h = absurd (cc h)

pub points_to-true : (p : ℕ) (o : Option ℕ) → points_to p o ≡ true → o ≡ some p
points_to-true p none h = absurd (cc h)
points_to-true p (some q) h = ap some (ground arith)

not-false : (b : Bool) → not b ≡ false → b ≡ true
not-false true h = refl
not-false false h = cc h

&&-first : (b c : Bool) → (b && c) ≡ true → b ≡ true
&&-first true c h = refl
&&-first false c h = cc h

module _ {K : Type 0} where
  -- The map takes a descriptor to a channel that has this descriptor and an index other than `kNew`,
  -- and holds every such channel.
  pub record Registered (s : Poller K) : Type 0 where
    pub held :
        (fd p : ℕ) → s.map_channels fd ≡ some p → (fd_of p s ≡ fd) × (is_new (s.channels p) ≡ false)
    pub known : (p : ℕ) → is_new (s.channels p) ≡ false → s.map_channels (fd_of p s) ≡ some p

  modify-Registered :
      (p : ℕ) (f : Channel → Channel) {s : Poller K}
      → Registered s
      → (f (s.channels p)).sockfd ≡ fd_of p s
      → is_new (f (s.channels p)) ≡ is_new (s.channels p)
      → Registered (modify p f s)
  modify-Registered p f {s} v same_fd same_new =
      let fds = put-keeps (λ (c : Channel). c.sockfd) p (f (s.channels p)) s.channels same_fd in
      let news = put-keeps is_new p (f (s.channels p)) s.channels same_new in
      record {
        held = λ fd q e. let (a, b) = v.held fd q e in (fds q ∙ a, news q ∙ b);
        known = λ q n. ap s.map_channels (fds q) ∙ v.known q (sym (news q) ∙ n);
      }

  -- A channel that takes a free descriptor.
  register-Registered :
      (p : ℕ) {s : Poller K}
      → Registered s
      → s.map_channels (fd_of p s) ≡ none
      → Registered (
          modify p
            (set_index added_index)
            (record s { map_channels = put (fd_of p s) (some p) s.map_channels }))
  register-Registered p {s} v free =
      let c = set_index added_index (s.channels p) in
      let fds = put-keeps (λ (c : Channel). c.sockfd) p c s.channels refl in
      record {
        held = λ fd q e. elim (put-cases (fd_of p s) fd (some p) (some q) s.map_channels e) [
          | inl (at, same) ↦
              let i : p ≡ q = some-injective p q same in
              (
                fds q ∙ ap (λ j. fd_of j s) (sym i) ∙ sym at,
                subst (λ j. is_new (put p c s.channels j) ≡ false) i
                    (ap is_new (put-same p c s.channels)),
              )
          | inr (apart, old) ↦
              let (a, b) = v.held fd q old in
              (fds q ∙ a, put-All (λ d. is_new d ≡ false) p q c s.channels refl b)
        ];
        known = λ q n. elim (same_or_not q p) [
          | inl i ↦
              let at : fd_of p s ≡ fd_of q s = ap (λ j. fd_of j s) (sym i) in
              ap (put (fd_of p s) (some p) s.map_channels) (fds q ∙ sym at)
              ∙ put-same (fd_of p s) (some p) s.map_channels
              ∙ ap some (sym i)
          | inr apart ↦
              let old = v.known q (ap is_new (sym (put-other c s.channels apart)) ∙ n) in
              ap (put (fd_of p s) (some p) s.map_channels) (fds q)
              ∙ put-other (some p) s.map_channels
                  (λ e. none-ne-some q (sym free ∙ ap s.map_channels (sym e) ∙ old))
              ∙ old
        ];
      }

  -- A channel that gives its descriptor back.
  erase-Registered :
      (p : ℕ) {s : Poller K}
      → Registered s
      → s.map_channels (fd_of p s) ≡ some p
      → Registered (
          modify p
            (set_index new_index)
            (record s { map_channels = put (fd_of p s) none s.map_channels }))
  erase-Registered p {s} v taken =
      let c = set_index new_index (s.channels p) in
      let fds = put-keeps (λ (c : Channel). c.sockfd) p c s.channels refl in
      record {
        held = λ fd q e. elim (put-cases (fd_of p s) fd none (some q) s.map_channels e) [
          | inl (at, same) ↦ absurd (none-ne-some q same)
          | inr (apart, old) ↦
              let (a, b) = v.held fd q old in
              let other : q ≢ p = λ i. apart (sym a ∙ ap (λ j. fd_of j s) i) in
              (fds q ∙ a, ap is_new (put-other c s.channels other) ∙ b)
        ];
        known = λ q n. elim (same_or_not q p) [
          | inl i ↦
              let b : true ≡ false =
                sym (ap is_new (ap (put p c s.channels) i ∙ put-same p c s.channels)) ∙ n in
              absurd (cc b)
          | inr apart ↦
              let old = v.known q (ap is_new (sym (put-other c s.channels apart)) ∙ n) in
              ap (put (fd_of p s) none s.map_channels) (fds q)
              ∙ put-other none s.map_channels
                  (λ e. apart (some-injective q p (sym old ∙ ap s.map_channels e ∙ taken)))
              ∙ old
        ];
      }

  kernel-Registered : (k : K) {s : Poller K} → Registered s → Registered (record s { kernel = k })
  kernel-Registered k v = record { held = v.held; known = v.known }

  index-Registered :
      (p : ℕ) (i : Index) {s : Poller K}
      → Registered s
      → s.map_channels (fd_of p s) ≡ some p
      → is_new (set_index i (s.channels p)) ≡ false
      → Registered (modify p (set_index i) s)
  index-Registered p i {s} v taken h =
      modify-Registered p (set_index i) v refl (h ∙ sym (v.held (fd_of p s) p taken).1)

  delete-Registered :
      (ok : Bool) (p : ℕ) {s : Poller K}
      → Registered s
      → s.map_channels (fd_of p s) ≡ some p
      → Registered (delete_channel p (ok, s)).1
  delete-Registered true p v taken = index-Registered p deleted_index v taken refl
  delete-Registered false p v taken = v

  abbrev pub OnPoller {ℓ} : {A : Type ℓ} → A × Poller K → Type 0
  OnPoller r = Registered r.1

  update_at-Registered :
      (epoll_ctl : EpollCtl K) (i : Index) (p : ℕ) {s : Poller K}
      → Registered s
      → Registered (update_at epoll_ctl i p s).1
  update_at-Registered epoll_ctl new_index p {s} v =
      if-cases OnPoller (is_there (s.map_channels (fd_of p s))) (λ e. v)
        (λ e.
          kernel-Registered _
            (register-Registered p v (is_there-false (s.map_channels (fd_of p s)) e)))
  update_at-Registered epoll_ctl deleted_index p {s} v =
      if-cases OnPoller (points_to p (s.map_channels (fd_of p s)))
        (λ e.
          kernel-Registered _ (
            index-Registered p added_index v (points_to-true p (s.map_channels (fd_of p s)) e)
              refl))
        (λ e. v)
  update_at-Registered epoll_ctl added_index p {s} v =
      let here = points_to p (s.map_channels (fd_of p s)) in
      if-cases OnPoller (not here) (λ e. v)
        (λ e.
          let taken = points_to-true p (s.map_channels (fd_of p s)) (not-false here e) in
          if-cases OnPoller (is_none_event (s.channels p))
            (λ e'.
              delete-Registered (epoll_ctl ctl_del (fd_of p s) (s.channels p).events p s.kernel).0 p
                (kernel-Registered _ v) taken)
            (λ e'. kernel-Registered _ v))

  pub update_channel-Registered :
      (epoll_ctl : EpollCtl K) (p : ℕ) {s : Poller K}
      → Registered s
      → Registered (update_channel epoll_ctl p s).1
  unfolding update_channel
  update_channel-Registered epoll_ctl p {s} v =
      update_at-Registered epoll_ctl (s.channels p).index p v

  pub remove_channel-Registered :
      (p : ℕ) {s : Poller K} → Registered s → Registered (remove_channel p s)
  unfolding remove_channel
  remove_channel-Registered p {s} v =
      let here = points_to p (s.map_channels (fd_of p s)) in
      if-cases Registered (here && is_none_event (s.channels p))
        (λ e. erase-Registered p v (
          points_to-true p (s.map_channels (fd_of p s))
            (&&-first here (is_none_event (s.channels p)) e)))
        (λ e. v)

  pub events-Registered :
      (p : ℕ) (e : Events) {s : Poller K} → Registered s → Registered (modify p (set_events e) s)
  events-Registered p e v = modify-Registered p (set_events e) v refl refl

  pub fill_active_channels-Registered :
      (events : List (Events × ℕ)) (active : List ℕ) {s : Poller K}
      → Registered s
      → Registered (fill_active_channels events active s).1
  unfolding fill_active_channels
  fill_active_channels-Registered [] active v = v
  fill_active_channels-Registered ((e, p) ∷ rest) active {s} v =
      if-cases OnPoller (has_channel p s)
        (λ h. fill_active_channels-Registered rest (active ++ p ∷ []) (events-Registered p e v))
        (λ h. v)
