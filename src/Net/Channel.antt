-- ===== src/Net/Channel.antt =====
-- net/Channel.h and net/Channel.cpp: a descriptor, the events that are of interest in it, and what
-- is called when they occur.
-- A set of events is the flags that base/Platform.h names, and no events are the mask 0. Descriptors,
-- and the addresses of channels and loops, are numbers.
use yedis.Prelude.{ℕ, Bool, true, false, Option, none, some, not, ◌||◌}

-- `XPOLLIN`, `XPOLLPRI` and so on
pub record Events : Type 0 where
  pub has_in : Bool
  pub has_pri : Bool
  pub has_out : Bool
  pub has_err : Bool
  pub has_hup : Bool
  pub has_nval : Bool
  pub has_rdhup : Bool

-- `kNoneEvent`
abbrev pub none_event : Events
none_event = record {
  has_in = false;
  has_pri = false;
  has_out = false;
  has_err = false;
  has_hup = false;
  has_nval = false;
  has_rdhup = false;
}

abbrev pub is_empty_set : Events → Bool
is_empty_set e =
    not (e.has_in || e.has_pri || e.has_out || e.has_err || e.has_hup || e.has_nval || e.has_rdhup)

-- `kNew`, `kAdded` and `kDeleted` of net/EpollPoller.cpp
pub data Index : Type 0 where
  new_index added_index deleted_index : Index

pub record Channel : Type 0 where
  pub loop : ℕ
  pub sockfd : ℕ
  pub events : Events
  pub index : Index

abbrev pub new_channel : ℕ → ℕ → Channel
new_channel loop fd = record { loop = loop; sockfd = fd; events = none_event; index = new_index }

-- `m_nEvents |= kReadEvent` and so on
abbrev pub with_reading : Events → Events
with_reading e = record e { has_in = true; has_pri = true }

abbrev pub with_writing : Events → Events
with_writing e = record e { has_out = true }

abbrev pub without_reading : Events → Events
without_reading e = record e { has_in = false; has_pri = false }

abbrev pub without_writing : Events → Events
without_writing e = record e { has_out = false }

abbrev pub set_events : Events → Channel → Channel
set_events e c = record c { events = e }

-- `setRevents` writes to the mask of interest.
abbrev pub set_revents : Events → Channel → Channel
set_revents = set_events

abbrev pub add_revents : Events → Channel → Channel
add_revents e c = record c {
  events = record {
    has_in = c.events.has_in || e.has_in;
    has_pri = c.events.has_pri || e.has_pri;
    has_out = c.events.has_out || e.has_out;
    has_err = c.events.has_err || e.has_err;
    has_hup = c.events.has_hup || e.has_hup;
    has_nval = c.events.has_nval || e.has_nval;
    has_rdhup = c.events.has_rdhup || e.has_rdhup;
  };
}

abbrev pub set_index : Index → Channel → Channel
set_index i c = record c { index = i }

abbrev pub is_none_event : Channel → Bool
is_none_event c = is_empty_set c.events

abbrev pub is_writing : Channel → Bool
is_writing c = c.events.has_out

-- The callbacks that may be set, as functions on the state `W`.
pub record Callbacks {ℓ} (W : Type ℓ) : Type ℓ where
  pub read_callback : Option (W → W)
  pub write_callback : Option (W → W)
  pub error_callback : Option (W → W)

abbrev pub call_if {ℓ} : {W : Type ℓ} → Bool → Option (W → W) → W → W
call_if true (some f) w = f w
call_if true none w = w
call_if false f w = w

-- Each mask is read when its turn comes, from what the callbacks before left.
unfoldable pub handle_event {ℓ} : {W : Type ℓ} → (W → Events) → Callbacks W → W → W
handle_event events cb w =
    let e = events w in
    let w1 = call_if (e.has_err || e.has_nval) cb.error_callback w in
    let e1 = events w1 in
    let w2 = call_if (e1.has_in || e1.has_pri || e1.has_rdhup) cb.read_callback w1 in
    call_if (events w2).has_out cb.write_callback w2
