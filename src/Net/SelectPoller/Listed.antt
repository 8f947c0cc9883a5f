-- ===== src/Net/SelectPoller/Listed.antt =====
-- The channels whose events are in the list.
use yedis.Prelude.{
  ℕ, ◌≡◌, ◌≢◌, refl, sym, ap, subst, ◌∙◌, Bool, true, false, Option, none, some, [], ◌∷◌, ◌++◌,
  ◌==◌, ◌||◌, not, ◌&&◌, inl, inr, arith, ==_refl,
}
use yedis.Prelude.Maps.{put, put-same, put-other, same_or_not, if-cases}
use yedis.Net.Channel.{
  Events, Index, new_index, added_index, deleted_index, Channel, set_events, set_index,
  is_none_event,
}
use yedis.Net.EpollPoller.{
  ctl_add, ctl_del, ctl_mod, Poller, fd_of, modify, is_there, points_to, control, delete_channel,
  update_at, remove_channel,
}
use yedis.Net.SelectPoller.{EventList, replace_event, select_update}
use yedis.Net.SelectPoller.Updates.{
  or-true, is_listed, replace_event-is_listed, is_listed-append, is_listed-replace_other,
  is_listed-replace_same,
}

abbrev pub added_at : Index → Bool
added_at new_index = false
added_at added_index = true
added_at deleted_index = false

abbrev pub is_added : Channel → Bool
is_added c = added_at c.index

-- A channel whose index is `kAdded` has an event in the list.
pub record Listed (s : Poller EventList) : Type 0 where
  pub listed : (p : ℕ) → is_added (s.channels p) ≡ true → is_listed p s.kernel ≡ true

-- Every channel but the one at `p` keeps its index, and the events of the others stay.
others-Listed :
    (p : ℕ) (c : Channel) (l : EventList) {s : Poller EventList}
    → Listed s
    → ((q : ℕ) → q ≢ p → is_listed q s.kernel ≡ true → is_listed q l ≡ true)
    → (is_added c ≡ true → is_listed p l ≡ true)
    → Listed (record s { channels = put p c s.channels; kernel = l })
others-Listed p c l {s} v other same = record {
  listed = λ q a. elim (same_or_not q p) [
    | inl e ↦
        ap (λ r. is_listed r l) e
        ∙ same (ap is_added (sym (ap (put p c s.channels) e ∙ put-same p c s.channels)) ∙ a)
    | inr e ↦ other q e (v.listed q (ap is_added (sym (put-other c s.channels e)) ∙ a))
  ];
}

map-Listed :
    (m : ℕ → Option ℕ) {s : Poller EventList} → Listed s → Listed (record s { map_channels = m })
map-Listed m v = record { listed = v.listed }

add-Listed :
    (p : ℕ) {s : Poller EventList}
    → Listed s
    → Listed (control select_update ctl_add p (modify p (set_index added_index) s)).1
unfolding select_update
add-Listed p {s} v =
    let c = set_index added_index (s.channels p) in
    let e = (put p c s.channels p).events in
    let m : EventList = (p, e) ∷ [] in
    others-Listed p c (s.kernel ++ m) v
      (λ q apart h. is_listed-append q s.kernel m ∙ ap (λ b. b || is_listed q m) h)
      (λ a.
        is_listed-append p s.kernel m
        ∙ ap (λ b. is_listed p s.kernel || (b || false)) (==_refl p)
        ∙ or-true (is_listed p s.kernel))

abbrev OnListed {ℓ} : {A : Type ℓ} → A × Poller EventList → Type 0
OnListed r = Listed r.1

-- The event was found and erased, and the index becomes `kDeleted`; or it was not there.
deleted-Listed :
    (p : ℕ) (found : Bool) (l : EventList) {s : Poller EventList}
    → Listed s
    → ((q : ℕ) → q ≢ p → is_listed q s.kernel ≡ true → is_listed q l ≡ true)
    → found ≡ is_listed p s.kernel
    → Listed (delete_channel p (found, record s { kernel = l })).1
deleted-Listed p true l {s} v other h =
    others-Listed p (set_index deleted_index (s.channels p)) l v other (λ a. absurd (cc a))
deleted-Listed p false l {s} v other h = record {
  listed = λ q a. elim (same_or_not q p) [
    | inl i ↦ absurd (cc (h ∙ ap (λ r. is_listed r s.kernel) (sym i) ∙ v.listed q a))
    | inr i ↦ other q i (v.listed q a)
  ];
}

delete-Listed :
    (p : ℕ) {s : Poller EventList}
    → Listed s
    → Listed (delete_channel p (control select_update ctl_del p s)).1
unfolding select_update
delete-Listed p {s} v =
    let r = replace_event p [] s.kernel in
    let kept : (q : ℕ) → q ≢ p → is_listed q s.kernel ≡ true → is_listed q r.1 ≡ true =
      λ q apart h. is_listed-replace_other q p [] s.kernel apart refl ∙ h in
    deleted-Listed p r.0 r.1 v kept (replace_event-is_listed p [] s.kernel)

modified-Listed :
    (p : ℕ) {s : Poller EventList} → Listed s → Listed (control select_update ctl_mod p s).1
unfolding select_update
modified-Listed p {s} v =
    let e = (s.channels p).events in
    record {
      listed = λ q a. elim (same_or_not q p) [
        | inl i ↦
            subst (λ r. is_listed r (replace_event p ((p, e) ∷ []) s.kernel).1 ≡ true) (sym i)
              (is_listed-replace_same p e s.kernel
                ∙ ap (λ r. is_listed r s.kernel) (sym i)
                ∙ v.listed q a)
        | inr i ↦
            let apart : (p == q) ≡ false = ground arith in
            is_listed-replace_other q p ((p, e) ∷ []) s.kernel i (ap (λ b. b || false) apart)
            ∙ v.listed q a
      ];
    }

pub update_at-Listed :
    (i : Index) (p : ℕ) {s : Poller EventList} → Listed s → Listed (update_at select_update i p s).1
update_at-Listed new_index p {s} v =
    if-cases OnListed (is_there (s.map_channels (fd_of p s))) (λ e. v)
      (λ e. add-Listed p (map-Listed (put (fd_of p s) (some p) s.map_channels) v))
update_at-Listed deleted_index p {s} v =
    if-cases OnListed (points_to p (s.map_channels (fd_of p s))) (λ e. add-Listed p v) (λ e. v)
update_at-Listed added_index p {s} v =
    if-cases OnListed (not (points_to p (s.map_channels (fd_of p s)))) (λ e. v)
      (λ e.
        if-cases OnListed (is_none_event (s.channels p)) (λ e'. delete-Listed p v)
          (λ e'. modified-Listed p v))

pub remove_channel-Listed : (p : ℕ) {s : Poller EventList} → Listed s → Listed (remove_channel p s)
unfolding remove_channel
remove_channel-Listed p {s} v =
    let c = set_index new_index (s.channels p) in
    if-cases Listed (points_to p (s.map_channels (fd_of p s)) && is_none_event (s.channels p))
      (λ e.
        others-Listed p c s.kernel (map-Listed (put (fd_of p s) none s.map_channels) v)
          (λ q apart h. h) (λ a. absurd (cc a)))
      (λ e. v)

pub events-Listed :
    (p : ℕ) (e : Events) {s : Poller EventList} → Listed s → Listed (modify p (set_events e) s)
events-Listed p e {s} v =
    others-Listed p (set_events e (s.channels p)) s.kernel v (λ q apart h. h) (λ a. v.listed p a)
