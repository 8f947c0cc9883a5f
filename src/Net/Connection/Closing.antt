-- ===== src/Net/Connection/Closing.antt =====
-- Every sequence of events of a connection.
use yedis.Prelude.{ℕ, ◌≤◌, ◌≡◌, refl, ap, ◌∙◌, List, [], ◌∷◌, ◌++◌, not, arith}
use yedis.Prelude.Maps.{if-cases}
use yedis.Outcome.{Outcome, done, ◌>>=◌}
use yedis.Buffer.{Buffer, Read, initial_size}
use yedis.Buffer.Space.{new_buffer-IsBuffer}
use yedis.Net.EpollPoller.{Poller, EpollCtl, enable_reading}
use yedis.Net.Connection.{
  disconnected, connected, Notice, connection_called, close_called, Connection, is_connecting,
  is_connected, is_disconnected, new_connection, notify, disconnect, handle_close,
  connect_established, connect_destroyed, handle_read,
}
use yedis.Net.Connection.Orderly.{
  Consumes, closes, openings, closes-append, openings-append, most_closes, most_openings,
  most_closes-open, most_openings-bound, most_closes-bound, connecting-is_connecting, Orderly,
}
use yedis.Net.Connection.Reading.{handle_read_lem}

-- `fails` is an event of an error, for which `handleClose` is called.
pub data Event : Type 0 where
  established fails destroyed : Event
  readable : ℕ → Read → Event

module _ {K : Type 0} (epoll_ctl : EpollCtl K) where
  disconnected-Orderly :
      {c : Connection K}
      → Orderly c
      → Orderly (notify (connection_called disconnected) (disconnect epoll_ctl c))
  disconnected-Orderly {c} v =
      let told : List Notice = connection_called disconnected ∷ [] in
      record {
        is_buffer = v.is_buffer;
        few_closes =
            omega (arith, closes-append c.calls told, v.few_closes, most_closes-bound c.state);
        few_openings =
            omega
              (arith, openings-append c.calls told, v.few_openings, most_openings-bound c.state);
      }

  handle_close-Orderly : {c : Connection K} → Orderly c → Orderly (handle_close epoll_ctl c)
  unfolding handle_close
  handle_close-Orderly {c} v =
      if-cases Orderly (is_disconnected c.state) (λ e. v)
        (λ e.
          let w = disconnected-Orderly v in
          let first : List Notice = connection_called disconnected ∷ [] in
          record {
            is_buffer = v.is_buffer;
            few_closes = omega (
              arith,
              closes-append (c.calls ++ first) (close_called ∷ []),
              closes-append c.calls first,
              v.few_closes,
              most_closes-open c.state e,
            );
            few_openings =
                omega
                  (arith, openings-append (c.calls ++ first) (close_called ∷ []), w.few_openings);
          })

  connect_established-Orderly :
      {c : Connection K} → Orderly c → Orderly (connect_established epoll_ctl c)
  unfolding connect_established
  connect_established-Orderly {c} v =
      if-cases Orderly (not (is_connecting c.state)) (λ e. v)
        (λ e.
          let st = connecting-is_connecting c.state e in
          let r = enable_reading epoll_ctl c.channel c.poller in
          let c' = record c { state = connected; poller = r.1 } in
          let none_yet = ap most_openings st in
          let none_closed = ap most_closes st in
          let told : List Notice = connection_called connected ∷ [] in
          let w : Orderly c' = record {
            is_buffer = v.is_buffer;
            few_closes = omega (arith, v.few_closes, none_closed);
            few_openings = omega (arith, v.few_openings, none_yet);
          } in
          if-cases Orderly (not r.0) (λ e'. handle_close-Orderly w)
            (λ e'. record {
              is_buffer = v.is_buffer;
              few_closes = omega (arith, closes-append c.calls told, w.few_closes);
              few_openings = omega (arith, openings-append c.calls told, v.few_openings, none_yet);
            }))

  connect_destroyed-Orderly :
      {c : Connection K} → Orderly c → Orderly (connect_destroyed epoll_ctl c)
  unfolding connect_destroyed
  connect_destroyed-Orderly {c} v =
      let w = if-cases Orderly (is_connected c.state) (λ e. disconnected-Orderly v) (λ e. v) in
      record { is_buffer = w.is_buffer; few_closes = w.few_closes; few_openings = w.few_openings }

  module _ (on_message : Buffer → Outcome Buffer) where
    abbrev pub perform : Event → Connection K → Outcome (Connection K)
    perform established c = done (connect_established epoll_ctl c)
    perform fails c = done (handle_close epoll_ctl c)
    perform destroyed c = done (connect_destroyed epoll_ctl c)
    perform (readable e r) c = handle_read on_message e r c

    abbrev pub perform_all : List Event → Connection K → Outcome (Connection K)
    perform_all [] c = done c
    perform_all (e ∷ events) c = perform e c >>= perform_all events

    perform-Orderly :
        (e : Event) {c : Connection K}
        → Consumes on_message
        → Orderly c
        → (c' : Connection K) × (perform e c ≡ done c') × Orderly c'
    perform-Orderly established {c} takes v =
        (connect_established epoll_ctl c, refl, connect_established-Orderly v)
    perform-Orderly fails {c} takes v = (handle_close epoll_ctl c, refl, handle_close-Orderly v)
    perform-Orderly destroyed {c} takes v =
        (connect_destroyed epoll_ctl c, refl, connect_destroyed-Orderly v)
    perform-Orderly (readable e r) takes v =
        let (c', run, u) = handle_read_lem on_message e r takes v in (c', run, u.orderly)

    perform_all-Orderly :
        (events : List Event) {c : Connection K}
        → Consumes on_message
        → Orderly c
        → (c' : Connection K) × (perform_all events c ≡ done c') × Orderly c'
    perform_all-Orderly [] {c} takes v = (c, refl, v)
    perform_all-Orderly (e ∷ events) takes v =
        let (c', run, v') = perform-Orderly e takes v in
        let (c'', run', v'') = perform_all-Orderly events takes v' in
        (c'', ap (λ (o : Outcome (Connection K)). o >>= perform_all events) run ∙ run', v'')

pub new_connection-Orderly :
    {K : Type 0} (channel : ℕ) (poller : Poller K) → Orderly (new_connection channel poller)
unfolding new_connection
new_connection-Orderly channel poller = record {
  is_buffer = (new_buffer-IsBuffer initial_size).0;
  few_closes = omega arith;
  few_openings = omega arith;
}

-- In every sequence of establishing, reading, errors and destroying, in any order and whatever
-- `epoll_ctl` and the reads give, all calls end without a fault, the close callback is called once at
-- most and only on a connection that is disconnected, and the connection callback sees the connection
-- connected once at most and not before it is established. The message callback is one that fails no
-- assertion on a buffer whose indices are in order (`Consumes`).
pub perform_all-new_connection :
    {K : Type 0} (epoll_ctl : EpollCtl K) (on_message : Buffer → Outcome Buffer) (channel : ℕ)
    (poller : Poller K) (events : List Event)
    → Consumes on_message
    → (c : Connection K) × (perform_all epoll_ctl on_message events (new_connection channel poller)
        ≡ done c)
      × (closes c.calls ≤ most_closes c.state)
      × (openings c.calls ≤ most_openings c.state)
perform_all-new_connection epoll_ctl on_message channel poller events takes =
    let v = new_connection-Orderly channel poller in
    let (c, run, w) = perform_all-Orderly epoll_ctl on_message events takes v in
    (c, run, w.few_closes, w.few_openings)
