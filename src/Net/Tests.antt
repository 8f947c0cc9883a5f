-- ===== src/Net/Tests.antt =====
-- Runs of a poller whose kernel always agrees, of a pool, a connection and a server.
use yedis.Prelude.{
  ℕ, zero, suc, length, ◌++◌, ◌+◌, ◌*◌, ◌≡◌, ◌≤◌, refl, true, false, some, List, [], ◌∷◌, ◌==◌, not,
  ◌&&◌, if◌then◌else◌, arith, codes, bytes_eq,
}
use yedis.Prelude.Int.{pos}
use yedis.Prelude.Assoc.{find}
use yedis.Outcome.{Outcome, done}
use yedis.Buffer.{Buffer, got, failed, retrieve_all}
use yedis.Buffer.Take.{retrieve_all_lem}
use yedis.Net.Channel.{Events, none_event, Channel, new_channel}
use yedis.Net.EpollPoller.{
  EpollCtl, Poller, new_poller, fd_of, has_channel, points_to, poll, is_there,
}
use yedis.Net.EpollPoller.Registered.{is_new}
use yedis.Net.EpollPoller.Calls.{Call, perform_all-map_channels}
use yedis.Net.EpollPoller.Calls
use yedis.Net.EpollPoller.Active.{known_pointers, poll-known_pointers}
use yedis.Net.SelectPoller.{EventList, select_update_channel}
use yedis.Net.SelectPoller.Answers.{perform_all-select_update_channel}
use yedis.Net.SelectPoller.Answers
use yedis.Net.EventLoop.{Loop, new_loop, queue_in_loop, wake_queued, Step, Steps}
use yedis.Net.EventLoop.Wake.{due, Steps-new_loop}
use yedis.Net.Pool.{Pool, new_pool, init, start, get_next_loop}
use yedis.Net.Pool.Turns.{after, get_next_loop-after}
use yedis.Net.Connection.{Connection, new_connection}
use yedis.Net.Connection.Orderly.{Consumes, closes, openings, most_closes, most_openings}
use yedis.Net.Connection.Reading.{Unclosed, read_all, read_all-Unclosed}
use yedis.Net.Connection.Closing.{Event, new_connection-Orderly, perform_all-new_connection}
use yedis.Net.Connection.Closing
use yedis.Net.Server.{new_handle, Server}
use yedis.Net.Server.Table.{IsServer}
use yedis.Net.Server.Leaks.{Kept, made, perform_all-Kept}
use yedis.Net.Server.Leaks

abbrev obliging : EpollCtl ℕ
obliging op fd events p k = (true, k + 1)

-- Channel `p` has descriptor `p`.
abbrev fresh : ℕ → Channel
fresh p = new_channel 1 p

abbrev idle : Poller ℕ
idle = new_poller fresh 0

abbrev calls : List Call
calls =
    Call.enables_reading 5
    ∷ Call.polls (some ((none_event, 5) ∷ []))
    ∷ Call.disables_all 5
    ∷ Call.removes 5
    ∷ []

abbrev called : Poller ℕ
called = Calls.perform_all obliging calls idle

perform_all-map_channels_example :
    (points_to 5 (called.map_channels 5)
      ≡ (fd_of 5 called == 5 && not (is_new (called.channels 5))))
    × (has_channel 5 called ≡ not (is_new (called.channels 5)))
perform_all-map_channels_example = perform_all-map_channels obliging fresh 0 (λ p. refl) calls 5 5

poll-known_pointers_example :
    (poll (some ((none_event, 5) ∷ [])) idle).0 ≡ known_pointers idle ((none_event, 5) ∷ [])
poll-known_pointers_example = poll-known_pointers ((none_event, 5) ∷ []) idle

get_next_loop-after_example :
    (s : Pool) × (s' : Pool) × (after (2 * 3 + 1) (start (λ i. 10 + i) (init (some 0) 3 new_pool))
      ≡ done s)
    × (get_next_loop s ≡ done (some 11, s'))
get_next_loop-after_example = get_next_loop-after (λ i. 10 + i) 0 3 2 1 (omega arith)

abbrev take_in : Buffer → Outcome Buffer
take_in b = done (retrieve_all b)

take_in-Consumes : Consumes take_in
take_in-Consumes b v = (retrieve_all b, refl, (retrieve_all_lem v).0)

abbrev events : List Event
events =
    Event.established
    ∷ Event.readable 0 (got (codes "PING"))
    ∷ Event.fails
    ∷ Event.fails
    ∷ Event.destroyed
    ∷ []

perform_all-new_connection_example :
    (c : Connection ℕ) × (Closing.perform_all obliging take_in events (new_connection 5 idle)
      ≡ done c)
    × (closes c.calls ≤ most_closes c.state)
    × (openings c.calls ≤ most_openings c.state)
perform_all-new_connection_example =
    perform_all-new_connection obliging take_in 5 idle events take_in-Consumes

read_all-Unclosed_example :
    (c : Connection ℕ) × (read_all take_in
        ((0, got []) ∷ (0, failed 104) ∷ [])
        (new_connection 5 idle)
      ≡ done c)
    × Unclosed (new_connection 5 idle) c
read_all-Unclosed_example =
    read_all-Unclosed take_in ((0, got []) ∷ (0, failed 104) ∷ []) (new_connection 5 idle)
      take_in-Consumes (new_connection-Orderly 5 idle)

abbrev one_loop : Pool
one_loop = record {
  base_loop = some 1;
  started = true;
  thread_numbers = 1;
  next = 0;
  loops = 2 ∷ [];
}

abbrev server : Server
server = record {
  name = codes "YedisServer";
  pool = one_loop;
  next_conn_id = pos 1;
  connections = (codes "YedisServer:a#0", new_handle 2 7) ∷ [];
  overwritten = [];
  established = [];
  destroyed = [];
}

server-IsServer : IsServer server
unfolding find bytes_eq
server-IsServer = record {
  is_pool = record { is_started = refl; in_range = omega arith };
  named = refl;
}

server-find : find (codes "YedisServer:a#0") server.connections ≡ some (new_handle 2 7)
unfolding find bytes_eq
server-find = refl

abbrev server_ops : List Leaks.Op
server_ops = Leaks.Op.removes 2 7 ∷ Leaks.Op.connects 8 (codes "b") ∷ []

perform_all-Kept_example :
    (s : Server) × (Leaks.perform_all server_ops server ≡ done s)
    × Kept (codes "YedisServer:a#0") (new_handle 2 7) (made server_ops) server s
perform_all-Kept_example =
    perform_all-Kept server_ops (codes "YedisServer:a#0") (new_handle 2 7) server server-IsServer
      server-find

-- Functor `n` queues those below `n`.
abbrev below : ℕ → List ℕ
below zero = []
below (suc n) = n ∷ []

-- Another thread has queued a functor, and then wakes the loop.
abbrev queued : Loop ℕ
queued = queue_in_loop false 2 new_loop

abbrev woken : Loop ℕ
woken = wake_queued false (record queued { queueing = 0 })

queued-queueing : queued.queueing ≡ 1
unfolding queue_in_loop
queued-queueing = refl

Steps-new_loop_example :
    (woken.ran ++ (woken.vec_functors ++ woken.pending_functor) ≡ woken.posted)
    × (due woken.phase (length woken.pending_functor) ≤ woken.counter + woken.queueing)
Steps-new_loop_example = Steps-new_loop below woken (
    Steps.goes new_loop queued woken
      (Steps.goes new_loop new_loop queued (Steps.stays new_loop) (Step.posts 2 new_loop))
      (Step.wakes 0 queued queued-queueing))

abbrev readable_events : Events
readable_events = record none_event { has_in = true }

abbrev selected : Poller EventList
selected =
    Answers.perform_all (Answers.Op.marks readable_events 5 ∷ Answers.Op.updates 5 ∷ [])
      (new_poller fresh [])

perform_all-select_update_channel_example : (select_update_channel 5 selected).0 ≡ (
    if is_new (selected.channels 5)
    then not (is_there (selected.map_channels (fd_of 5 selected)))
    else true)
perform_all-select_update_channel_example =
    perform_all-select_update_channel fresh (λ p. refl)
      (Answers.Op.marks readable_events 5 ∷ Answers.Op.updates 5 ∷ []) 5
