-- ===== src/Net/SelectPoller/Answers.antt =====
-- What `updateChannel` of `SelectPoller` answers.
use yedis.Prelude.{
  ℕ, ◌≡◌, ◌≢◌, refl, sym, ap, ◌∙◌, Bool, true, false, List, [], ◌∷◌, not, if◌then◌else◌, ==_refl,
}
use yedis.Prelude.Maps.{if-cases}
use yedis.Net.Channel.{
  Events, Index, new_index, added_index, deleted_index, Channel, set_events, is_none_event,
}
use yedis.Net.EpollPoller.{
  Poller, new_poller, fd_of, modify, is_there, points_to, delete_channel, update_at, update_channel,
}
use yedis.Net.EpollPoller.Registered.{
  is_new, new_at, Registered, update_channel-Registered, remove_channel-Registered,
  events-Registered,
}
use yedis.Net.EpollPoller.Calls.{new_poller-Registered}
use yedis.Net.SelectPoller.{EventList, select_update, select_update_channel, select_remove_channel}
use yedis.Net.SelectPoller.Updates.{replace_event-is_listed}
use yedis.Net.SelectPoller.Listed.{
  added_at, Listed, update_at-Listed, remove_channel-Listed, events-Listed,
}

-- `marks` is any change of the mask, also that of `addRevents`.
pub data Op : Type 0 where
  marks : Events → ℕ → Op
  updates removes : ℕ → Op

abbrev pub perform : Op → Poller EventList → Poller EventList
perform (marks e p) s = modify p (set_events e) s
perform (updates p) s = (select_update_channel p s).1
perform (removes p) s = select_remove_channel p s

abbrev pub perform_all : List Op → Poller EventList → Poller EventList
perform_all [] s = s
perform_all (o ∷ ops) s = perform_all ops (perform o s)

record Valid (s : Poller EventList) : Type 0 where
  registered : Registered s
  listed : Listed s

perform-Valid : (o : Op) {s : Poller EventList} → Valid s → Valid (perform o s)
unfolding select_update_channel select_remove_channel update_channel
perform-Valid (marks e p) v = record {
  registered = events-Registered p e v.registered;
  listed = events-Listed p e v.listed;
}
perform-Valid (updates p) {s} v = record {
  registered = update_channel-Registered select_update p v.registered;
  listed = update_at-Listed (s.channels p).index p v.listed;
}
perform-Valid (removes p) v = record {
  registered = remove_channel-Registered p v.registered;
  listed = remove_channel-Listed p v.listed;
}

perform_all-Valid : (ops : List Op) {s : Poller EventList} → Valid s → Valid (perform_all ops s)
perform_all-Valid [] v = v
perform_all-Valid (o ∷ ops) v = perform_all-Valid ops (perform-Valid o v)

points_to-known :
    (p : ℕ) {s : Poller EventList}
    → Registered s
    → is_new (s.channels p) ≡ false
    → points_to p (s.map_channels (fd_of p s)) ≡ true
points_to-known p v h = ap (points_to p) (v.known p h) ∙ ==_refl p

delete_channel-found :
    (p : ℕ) (found : Bool) (s : Poller EventList) → (delete_channel p (found, s)).0 ≡ found
delete_channel-found p true s = refl
delete_channel-found p false s = refl

update_at-answer :
    (i : Index) (p : ℕ) {s : Poller EventList}
    → Valid s
    → (s.channels p).index ≡ i
    → (update_at select_update i p s).0
      ≡ (if is_new (s.channels p) then not (is_there (s.map_channels (fd_of p s))) else true)
unfolding select_update
update_at-answer new_index p {s} v e =
    let taken = is_there (s.map_channels (fd_of p s)) in
    if-cases (λ (r : Bool × Poller EventList). r.0 ≡ not taken) taken (λ h. sym (ap not h))
      (λ h. sym (ap not h))
    ∙ sym (ap (λ i. if new_at i then not taken else true) e)
update_at-answer deleted_index p {s} v e =
    let here = points_to-known p v.registered (ap new_at e) in
    if-cases (λ (r : Bool × Poller EventList). r.0 ≡ true)
      (points_to p (s.map_channels (fd_of p s))) (λ h. refl) (λ h. absurd (cc (h, here)))
    ∙ sym (ap (λ i. if new_at i then not (is_there (s.map_channels (fd_of p s))) else true) e)
update_at-answer added_index p {s} v e =
    let here = points_to-known p v.registered (ap new_at e) in
    let there = v.listed.listed p (ap added_at e) in
    if-cases (λ (r : Bool × Poller EventList). r.0 ≡ true)
      (not (points_to p (s.map_channels (fd_of p s)))) (λ h. absurd (cc (sym (ap not here) ∙ h)))
      (λ h.
        if-cases (λ (r : Bool × Poller EventList). r.0 ≡ true) (is_none_event (s.channels p))
          (λ h'. delete_channel-found p _ _ ∙ replace_event-is_listed p [] s.kernel ∙ there)
          (λ h'. replace_event-is_listed p ((p, (s.channels p).events) ∷ []) s.kernel ∙ there))
    ∙ sym (ap (λ i. if new_at i then not (is_there (s.map_channels (fd_of p s))) else true) e)

new-ne-added : (i : Index) → new_at i ≡ true → added_at i ≢ true
new-ne-added new_index h a = cc a
new-ne-added added_index h a = cc h
new-ne-added deleted_index h a = cc h

-- After any changes of masks, updates and removals, from a poller without channels on: `updateChannel`
-- answers false for a new channel whose descriptor has a channel, and for no other.
pub perform_all-select_update_channel :
    (channels : ℕ → Channel)
    → ((p : ℕ) → is_new (channels p) ≡ true)
    → (ops : List Op) (p : ℕ)
    → let s = perform_all ops (new_poller channels []) in
      (select_update_channel p s).0
      ≡ (if is_new (s.channels p) then not (is_there (s.map_channels (fd_of p s))) else true)
unfolding select_update_channel update_channel
perform_all-select_update_channel channels fresh ops p =
    let start : Valid (new_poller channels []) = record {
      registered = new_poller-Registered channels [] fresh;
      listed = record { listed = λ q a. absurd (new-ne-added (channels q).index (fresh q) a) };
    } in
    let s = perform_all ops (new_poller channels []) in
    update_at-answer (s.channels p).index p (perform_all-Valid ops start) refl
