-- ===== src/Net/SelectPoller.antt =====
-- net/SelectPoller.cpp: `updateChannel`, `removeChannel` and `hasChannel` are those of
-- net/EpollPoller.cpp, word for word, over an `update` that keeps the events in `m_vecEvents`.
pub mod Updates
pub mod Listed
pub mod Answers
pub mod Poll
use yedis.Prelude.{
  ℕ, Bool, true, false, Option, none, some, List, [], ◌∷◌, ◌++◌, ◌==◌, if◌then◌else◌,
}
use yedis.Net.Channel.{Events}
use yedis.Net.EpollPoller.{
  Operation, ctl_add, ctl_del, ctl_mod, EpollCtl, Poller, update_channel, remove_channel,
  has_channel,
}

-- `m_vecEvents`: `data.ptr` and `events`
abbrev pub EventList : Type 0
EventList = List (ℕ × Events)

-- The first event of the pointer is erased, or its events are written.
unfoldable pub replace_event : ℕ → EventList → EventList → Bool × EventList
replace_event p new [] = (false, [])
replace_event p new ((q, e) ∷ l) =
    let (found, rest) = replace_event p new l in
    if q == p then (true, new ++ l) else (found, (q, e) ∷ rest)

-- `update`, whose message of a failure is left out
unfoldable pub select_update : EpollCtl EventList
unfolding replace_event
select_update ctl_add fd e p l = (true, l ++ (p, e) ∷ [])
select_update ctl_del fd e p l = replace_event p [] l
select_update ctl_mod fd e p l = replace_event p ((p, e) ∷ []) l

unfoldable pub select_update_channel : ℕ → Poller EventList → Bool × Poller EventList
unfolding update_channel select_update
select_update_channel = update_channel select_update

unfoldable pub select_remove_channel : ℕ → Poller EventList → Poller EventList
unfolding remove_channel
select_remove_channel = remove_channel

unfoldable pub select_has_channel : ℕ → Poller EventList → Bool
unfolding has_channel
select_has_channel = has_channel
