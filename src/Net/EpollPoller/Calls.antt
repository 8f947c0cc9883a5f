-- ===== src/Net/EpollPoller/Calls.antt =====
-- Every sequence of calls of the channels of a loop, and of `poll`.
use yedis.Prelude.{
  ℕ, ◌≡◌, refl, sym, ap, ◌∙◌, Bool, true, false, Option, none, some, List, [], ◌∷◌, length, ◌==◌,
  not, ◌&&◌, Bool-cases, inl, inr, arith, ==_refl,
}
use mathlib.Core.Option.{none-ne-some}
use yedis.Prelude.Maps.{if-cases}
use yedis.Net.Channel.{
  Events, Channel, set_events, none_event, with_reading, without_reading, with_writing,
  without_writing,
}
use yedis.Net.EpollPoller.{
  Poller, new_poller, EpollCtl, fd_of, modify, has_channel, points_to, change, update,
  loop_update_channel, loop_remove_channel, enable_reading, disable_reading, enable_writing,
  disable_writing, disable_all, remove, fill_active_channels, poll,
}
use yedis.Net.EpollPoller.Registered.{
  is_new, Registered, OnPoller, points_to-true, events-Registered, update_channel-Registered,
  remove_channel-Registered, fill_active_channels-Registered,
}

-- The number is the address of a channel.
pub data Call : Type 0 where
  enables_reading disables_reading enables_writing disables_writing disables_all removes : ℕ → Call
  polls : Option (List (Events × ℕ)) → Call

module _ {K : Type 0} (epoll_ctl : EpollCtl K) where
  abbrev pub perform : Call → Poller K → Poller K
  perform (enables_reading p) s = (enable_reading epoll_ctl p s).1
  perform (disables_reading p) s = (disable_reading epoll_ctl p s).1
  perform (enables_writing p) s = (enable_writing epoll_ctl p s).1
  perform (disables_writing p) s = (disable_writing epoll_ctl p s).1
  perform (disables_all p) s = (disable_all epoll_ctl p s).1
  perform (removes p) s = remove p s
  perform (polls events) s = (poll events s).1

  abbrev pub perform_all : List Call → Poller K → Poller K
  perform_all [] s = s
  perform_all (c ∷ calls) s = perform_all calls (perform c s)

  change-Registered :
      (f : Events → Events) (p : ℕ) {s : Poller K}
      → Registered s
      → Registered (change epoll_ctl f p s).1
  unfolding update loop_update_channel
  change-Registered f p {s} v =
      let e = f (s.channels p).events in
      let s' = modify p (set_events e) s in
      let v' = events-Registered p e v in
      if-cases OnPoller (not ((s'.channels p).loop == (s'.channels p).loop)) (λ h. v')
        (λ h. update_channel-Registered epoll_ctl p v')

  perform-Registered : (c : Call) {s : Poller K} → Registered s → Registered (perform c s)
  unfolding enable_reading disable_reading enable_writing disable_writing disable_all remove
      loop_remove_channel poll
  perform-Registered (enables_reading p) v = change-Registered with_reading p v
  perform-Registered (disables_reading p) v = change-Registered without_reading p v
  perform-Registered (enables_writing p) v = change-Registered with_writing p v
  perform-Registered (disables_writing p) v = change-Registered without_writing p v
  perform-Registered (disables_all p) v = change-Registered (λ e. none_event) p v
  perform-Registered (removes p) {s} v =
      if-cases Registered (not ((s.channels p).loop == (s.channels p).loop)) (λ h. v)
        (λ h. remove_channel-Registered p v)
  perform-Registered (polls none) v = v
  perform-Registered (polls (some [])) v = v
  perform-Registered (polls (some (e ∷ events))) {s} v =
      let v' = fill_active_channels-Registered (e ∷ events) [] v in
      let s' = (fill_active_channels (e ∷ events) [] s).1 in
      if-cases Registered (length (e ∷ events) == s'.events_size)
        (λ h. record { held = v'.held; known = v'.known }) (λ h. v')

  perform_all-Registered :
      (calls : List Call) {s : Poller K} → Registered s → Registered (perform_all calls s)
  perform_all-Registered [] v = v
  perform_all-Registered (c ∷ calls) v = perform_all-Registered calls (perform-Registered c v)

&&-true : (b c : Bool) → (b && not c) ≡ true → (b ≡ true) × (c ≡ false)
&&-true true true h = absurd (cc h)
&&-true true false h = (refl, refl)
&&-true false c h = absurd (cc h)

pub new_poller-Registered :
    {K : Type 0} (channels : ℕ → Channel) (kernel : K)
    → ((p : ℕ) → is_new (channels p) ≡ true)
    → Registered (new_poller channels kernel)
new_poller-Registered channels kernel h = record {
  held = λ fd p e. absurd (none-ne-some p e);
  known = λ p n. absurd (cc (n, h p));
}

module _ {K : Type 0} where
  points_to-Registered :
      (fd p : ℕ) {s : Poller K}
      → Registered s
      → points_to p (s.map_channels fd) ≡ (fd_of p s == fd && not (is_new (s.channels p)))
  points_to-Registered fd p {s} v =
      elim (Bool-cases (fd_of p s == fd && not (is_new (s.channels p)))) [
        | inl e ↦
            let (a, b) = &&-true (fd_of p s == fd) (is_new (s.channels p)) e in
            let at : fd_of p s ≡ fd = ground arith in
            ap (points_to p) (ap s.map_channels (sym at) ∙ v.known p b) ∙ ==_refl p ∙ sym e
        | inr e ↦ elim (Bool-cases (points_to p (s.map_channels fd))) [
          | inl h ↦
              let (a, b) = v.held fd p (points_to-true p (s.map_channels fd) h) in
              let at : (fd_of p s == fd) ≡ true = ground arith in
              h ∙ sym (ap (λ c. fd_of p s == fd && not c) b ∙ ap (λ c. c && true) at)
          | inr h ↦ h ∙ sym e
        ]
      ]

-- Whatever the kernel is and `epoll_ctl` answers, after any calls of the channels of a loop and of its
-- poller, which starts with new channels only, the map takes a descriptor to exactly the channel that
-- has this descriptor and an index other than `kNew`; so `hasChannel` tells which channels these are.
pub perform_all-map_channels :
    {K : Type 0} (epoll_ctl : EpollCtl K) (channels : ℕ → Channel) (kernel : K)
    → ((p : ℕ) → is_new (channels p) ≡ true)
    → (calls : List Call) (fd p : ℕ)
    → let s = perform_all epoll_ctl calls (new_poller channels kernel) in
      (points_to p (s.map_channels fd) ≡ (fd_of p s == fd && not (is_new (s.channels p))))
      × (has_channel p s ≡ not (is_new (s.channels p)))
unfolding has_channel
perform_all-map_channels epoll_ctl channels kernel fresh calls fd p =
    let s = perform_all epoll_ctl calls (new_poller channels kernel) in
    let v = perform_all-Registered epoll_ctl calls (new_poller-Registered channels kernel fresh) in
    (
      points_to-Registered fd p v,
      points_to-Registered (fd_of p s) p v
          ∙ ap (λ b. b && not (is_new (s.channels p))) (==_refl (fd_of p s)),
    )
