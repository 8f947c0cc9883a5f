-- ===== src/Net/EpollPoller.antt =====
-- net/EpollPoller.cpp, with `updateChannel` and `removeChannel` of net/EventLoop.cpp and the
-- functions of net/Channel.cpp that call them.
-- `epoll_ctl` is a parameter: a function on the state of the kernel, which is given the operation,
-- the descriptor, the events and the pointer, and tells if it succeeded.
pub mod Registered
pub mod Calls
pub mod Active
use yedis.Prelude.{
  ℕ, ◌+◌, ◌*◌, Bool, true, false, Option, none, some, List, [], ◌∷◌, ◌++◌, length, ◌==◌, not, ◌&&◌,
  if◌then◌else◌,
}
use yedis.Prelude.Maps.{put}
use yedis.Net.Channel.{
  Events, none_event, Index, new_index, added_index, deleted_index, Channel, with_reading,
  with_writing, without_reading, without_writing, set_events, set_revents, set_index, is_none_event,
}

pub data Operation : Type 0 where
  ctl_add ctl_del ctl_mod : Operation

-- The poller of one loop, with the memory that its channels are in. `events_size` is the size of
-- `m_vecEvents`.
pub record Poller (K : Type 0) : Type 0 where
  pub channels : ℕ → Channel
  pub map_channels : ℕ → Option ℕ
  pub events_size : ℕ
  pub kernel : K

-- `EPollPoller(loop)`
abbrev pub new_poller : {K : Type 0} → (ℕ → Channel) → K → Poller K
new_poller channels kernel = record {
  channels = channels;
  map_channels = λ fd. none;
  events_size = 16;
  kernel = kernel;
}

-- `epoll_ctl`
abbrev pub EpollCtl : Type 0 → Type 0
EpollCtl K = Operation → ℕ → Events → ℕ → K → Bool × K

-- `mapChannels.find(fd) != mapChannels.end()`, and that the channel there is this one
abbrev pub is_there : Option ℕ → Bool
is_there none = false
is_there (some q) = true

abbrev pub points_to : ℕ → Option ℕ → Bool
points_to p none = false
points_to p (some q) = q == p

module _ {K : Type 0} where
  abbrev pub fd_of : ℕ → Poller K → ℕ
  fd_of p s = (s.channels p).sockfd

  abbrev pub modify : ℕ → (Channel → Channel) → Poller K → Poller K
  modify p f s = record s { channels = put p (f (s.channels p)) s.channels }

  unfoldable pub has_channel : ℕ → Poller K → Bool
  has_channel p s = points_to p (s.map_channels (fd_of p s))

  -- `update`
  abbrev pub control : EpollCtl K → Operation → ℕ → Poller K → Bool × Poller K
  control epoll_ctl op p s =
      let r = epoll_ctl op (fd_of p s) (s.channels p).events p s.kernel in
      (r.0, record s { kernel = r.1 })

  abbrev add_channel : EpollCtl K → ℕ → Poller K → Bool × Poller K
  add_channel epoll_ctl p s = control epoll_ctl ctl_add p (modify p (set_index added_index) s)

  abbrev pub delete_channel : ℕ → Bool × Poller K → Bool × Poller K
  delete_channel p (true, s) = (true, modify p (set_index deleted_index) s)
  delete_channel p (false, s) = (false, s)

  abbrev pub update_at : EpollCtl K → Index → ℕ → Poller K → Bool × Poller K
  update_at epoll_ctl new_index p s =
      if is_there (s.map_channels (fd_of p s))
      then (false, s)
      else add_channel epoll_ctl p
          (record s { map_channels = put (fd_of p s) (some p) s.map_channels })
  update_at epoll_ctl deleted_index p s =
      if points_to p (s.map_channels (fd_of p s)) then add_channel epoll_ctl p s else (false, s)
  update_at epoll_ctl added_index p s =
      if not (points_to p (s.map_channels (fd_of p s)))
      then (false, s)
      else if is_none_event (s.channels p)
      then delete_channel p (control epoll_ctl ctl_del p s)
      else control epoll_ctl ctl_mod p s

  unfoldable pub update_channel : EpollCtl K → ℕ → Poller K → Bool × Poller K
  update_channel epoll_ctl p s = update_at epoll_ctl (s.channels p).index p s

  unfoldable pub remove_channel : ℕ → Poller K → Poller K
  remove_channel p s =
      if points_to p (s.map_channels (fd_of p s)) && is_none_event (s.channels p)
      then modify p (set_index new_index)
          (record s { map_channels = put (fd_of p s) none s.map_channels })
      else s

  -- The `epoll_event`s are the events and the pointer. The loop ends at the first channel that the
  -- map does not hold.
  unfoldable pub fill_active_channels : List (Events × ℕ) → List ℕ → Poller K → List ℕ × Poller K
  unfolding has_channel
  fill_active_channels [] active s = (active, s)
  fill_active_channels ((e, p) ∷ rest) active s =
      let others = fill_active_channels rest (active ++ p ∷ []) (modify p (set_revents e) s) in
      if has_channel p s then others else (active, s)

  -- `none` is a failure of `epoll_wait`, which gives `events_size` events at most.
  unfoldable pub poll : Option (List (Events × ℕ)) → Poller K → List ℕ × Poller K
  unfolding fill_active_channels
  poll none s = ([], s)
  poll (some []) s = ([], s)
  poll (some (e ∷ events)) s =
      let (active, s') = fill_active_channels (e ∷ events) [] s in
      (
        active,
        if length (e ∷ events) == s'.events_size
            then record s' { events_size = s'.events_size * 2 }
            else s',
      )

  -- `EventLoop::updateChannel` of the loop at `this`
  unfoldable pub loop_update_channel : EpollCtl K → ℕ → ℕ → Poller K → Bool × Poller K
  unfolding update_channel
  loop_update_channel epoll_ctl this p s =
      if not ((s.channels p).loop == this) then (false, s) else update_channel epoll_ctl p s

  unfoldable pub loop_remove_channel : ℕ → ℕ → Poller K → Poller K
  unfolding remove_channel
  loop_remove_channel this p s = if not ((s.channels p).loop == this) then s else remove_channel p s

  -- `Channel::update`, of the channel at `p`
  unfoldable pub update : EpollCtl K → ℕ → Poller K → Bool × Poller K
  unfolding loop_update_channel
  update epoll_ctl p s = loop_update_channel epoll_ctl (s.channels p).loop p s

  abbrev pub change : EpollCtl K → (Events → Events) → ℕ → Poller K → Bool × Poller K
  change epoll_ctl f p s = update epoll_ctl p (modify p (λ c. set_events (f c.events) c) s)

  unfoldable pub enable_reading : EpollCtl K → ℕ → Poller K → Bool × Poller K
  unfolding update
  enable_reading epoll_ctl = change epoll_ctl with_reading

  unfoldable pub disable_reading : EpollCtl K → ℕ → Poller K → Bool × Poller K
  unfolding update
  disable_reading epoll_ctl = change epoll_ctl without_reading

  unfoldable pub enable_writing : EpollCtl K → ℕ → Poller K → Bool × Poller K
  unfolding update
  enable_writing epoll_ctl = change epoll_ctl with_writing

  unfoldable pub disable_writing : EpollCtl K → ℕ → Poller K → Bool × Poller K
  unfolding update
  disable_writing epoll_ctl = change epoll_ctl without_writing

  unfoldable pub disable_all : EpollCtl K → ℕ → Poller K → Bool × Poller K
  unfolding update
  disable_all epoll_ctl = change epoll_ctl (λ e. none_event)

  unfoldable pub remove : ℕ → Poller K → Poller K
  unfolding loop_remove_channel
  remove p s = loop_remove_channel (s.channels p).loop p s
