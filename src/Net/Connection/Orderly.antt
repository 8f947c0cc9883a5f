-- ===== src/Net/Connection/Orderly.antt =====
-- How often a connection calls its callbacks.
use yedis.Prelude.{ℕ, suc, ◌+◌, ◌≤◌, ◌≡◌, refl, false, List, [], ◌∷◌, ◌++◌, not, arith}
use yedis.Outcome.{Outcome, done}
use yedis.Buffer.{Buffer}
use yedis.Buffer.Space.{IsBuffer}
use yedis.Net.Connection.{
  State, disconnected, connecting, connected, disconnecting, Notice, connection_called,
  message_called, close_called, Connection, is_connecting, is_disconnected,
}

-- The message callback fails no assertion on a buffer whose indices are in order.
abbrev pub Consumes : (Buffer → Outcome Buffer) → Type 0
Consumes on_message =
    (b : Buffer) → IsBuffer b → (b' : Buffer) × (on_message b ≡ done b') × IsBuffer b'

abbrev pub closes : List Notice → ℕ
closes [] = 0
closes (close_called ∷ l) = suc (closes l)
closes (connection_called st ∷ l) = closes l
closes (message_called s ∷ l) = closes l

-- How often the connection callback has seen the connection connected.
abbrev pub openings : List Notice → ℕ
openings [] = 0
openings (connection_called connected ∷ l) = suc (openings l)
openings (connection_called _ ∷ l) = openings l
openings (close_called ∷ l) = openings l
openings (message_called s ∷ l) = openings l

pub closes-append : (l m : List Notice) → closes (l ++ m) ≡ closes l + closes m
closes-append [] m = omega arith
closes-append (close_called ∷ l) m = omega (arith, closes-append l m)
closes-append (connection_called st ∷ l) m = closes-append l m
closes-append (message_called s ∷ l) m = closes-append l m

pub openings-append : (l m : List Notice) → openings (l ++ m) ≡ openings l + openings m
openings-append [] m = omega arith
openings-append (close_called ∷ l) m = openings-append l m
openings-append (connection_called connected ∷ l) m = omega (arith, openings-append l m)
openings-append (connection_called connecting ∷ l) m = openings-append l m
openings-append (connection_called disconnected ∷ l) m = openings-append l m
openings-append (connection_called disconnecting ∷ l) m = openings-append l m
openings-append (message_called s ∷ l) m = openings-append l m

abbrev pub most_closes : State → ℕ
most_closes disconnected = 1
most_closes connecting = 0
most_closes connected = 0
most_closes disconnecting = 0

abbrev pub most_openings : State → ℕ
most_openings connecting = 0
most_openings disconnected = 1
most_openings connected = 1
most_openings disconnecting = 1

pub most_closes-open : (st : State) → is_disconnected st ≡ false → most_closes st ≡ 0
most_closes-open disconnected h = absurd (cc h)
most_closes-open connecting h = refl
most_closes-open connected h = refl
most_closes-open disconnecting h = refl

pub most_openings-bound : (st : State) → most_openings st ≤ 1
most_openings-bound disconnected = omega arith
most_openings-bound connecting = omega arith
most_openings-bound connected = omega arith
most_openings-bound disconnecting = omega arith

pub most_closes-bound : (st : State) → most_closes st ≤ 1
most_closes-bound disconnected = omega arith
most_closes-bound connecting = omega arith
most_closes-bound connected = omega arith
most_closes-bound disconnecting = omega arith

pub connecting-is_connecting : (st : State) → not (is_connecting st) ≡ false → st ≡ connecting
connecting-is_connecting connecting h = refl
connecting-is_connecting disconnected h = absurd (cc h)
connecting-is_connecting connected h = absurd (cc h)
connecting-is_connecting disconnecting h = absurd (cc h)

module _ {K : Type 0} where
  -- The callbacks are called no more often than the state allows.
  pub record Orderly (c : Connection K) : Type 0 where
    pub is_buffer : IsBuffer c.input
    pub few_closes : closes c.calls ≤ most_closes c.state
    pub few_openings : openings c.calls ≤ most_openings c.state
