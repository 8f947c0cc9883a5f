-- ===== src/Tasks/Order.antt =====
-- The bound of the queue, its order, and what a request comes to.
use yedis.Prelude.{
  ℕ, ◌<◌, ◌≤◌, ◌≡◌, ◌≢◌, ◌^◌, refl, ap, sym, subst, ◌∙◌, Bool, Option, none, some, List, [], ◌∷◌,
  ◌++◌, append_assoc, append-nil, Bytes, length, length-append, ltb, if◌then◌else◌, Bool-cases, inl,
  inr, arith,
}
use yedis.Outcome.{Outcome, done, fault, out_of_fuel, ◌>>=◌}
use yedis.Format.{array}
use yedis.Parser.RoundTrip.{parse_request-array}
use yedis.Exec.{Env}
use yedis.Commands.{Commands, exec_command}
use yedis.Tasks.{
  Task, Tasks, max_size, producer, consumer, consume_first, send_reply, on_read, Steps,
}

-- The connections that tasks belong to.
abbrev pub conns : List Task → List (Option ℕ)
conns [] = []
conns (t ∷ l) = t.conn ∷ conns l

abbrev pub answered : List (ℕ × Bytes) → List (Option ℕ)
answered [] = []
answered ((c, r) ∷ l) = some c ∷ answered l

conns-append : (l m : List Task) → conns (l ++ m) ≡ conns l ++ conns m
conns-append [] m = refl
conns-append (t ∷ l) m = ap (λ r. t.conn ∷ r) (conns-append l m)

answered-append : (l m : List (ℕ × Bytes)) → answered (l ++ m) ≡ answered l ++ answered m
answered-append [] m = refl
answered-append (p ∷ l) m = ap (λ r. some p.0 ∷ r) (answered-append l m)

-- What a state owes and has given, in order.
abbrev pub history : Tasks → List (Option ℕ)
history s = answered s.sent ++ conns s.deque

-- What holds of a next state, if there is one.
abbrev pub OnNext : (Tasks → Type 0) → Option Tasks → Type 0
OnNext P none = Unit
OnNext P (some s) = P s

abbrev pub OnDone : (Tasks → Type 0) → Outcome (Option Tasks) → Type 0
OnDone P (done o) = OnNext P o
OnDone P fault = Unit
OnDone P out_of_fuel = Unit

-- At most `max_size` tasks wait, and the history is `owed`.
pub record InOrder (owed : List (Option ℕ)) (s : Tasks) : Type 0 where
  pub bounded : length s.deque ≤ max_size
  pub in_order : history s ≡ owed

producer-InOrder :
    (item : Task) (s : Tasks) → OnNext (InOrder (history s ++ item.conn ∷ [])) (producer item s)
unfolding producer
producer-InOrder item s = elim (Bool-cases (ltb (length s.deque) max_size)) [
  | inl e ↦
      rw (e, if◌then◌else◌)
        (record {
          bounded = ground (arith, length-append s.deque (item ∷ []));
          in_order =
              ap (λ l. answered s.sent ++ l) (conns-append s.deque (item ∷ []))
              ∙ sym (append_assoc (answered s.sent) (conns s.deque) (item.conn ∷ []));
        })
  | inr e ↦ rw (e, if◌then◌else◌) tt
]

send_reply-InOrder :
    (conn : Option ℕ) (rest : List Task) (s : Tasks) (e : Env)
    → length rest ≤ max_size
    → OnDone (InOrder (answered s.sent ++ conn ∷ conns rest)) (send_reply conn rest s e)
send_reply-InOrder none rest s e h = tt
send_reply-InOrder (some c) rest s e h = record {
  bounded = h;
  in_order =
      ap (λ l. l ++ conns rest) (answered-append s.sent ((c, e.reply) ∷ []))
      ∙ append_assoc (answered s.sent) (some c ∷ []) (conns rest);
}

answer-InOrder :
    (conn : Option ℕ) (rest : List Task) (s : Tasks) (o : Outcome (Bool × Env))
    → length rest ≤ max_size
    → OnDone
        (InOrder (answered s.sent ++ conn ∷ conns rest))
        (o >>= λ r. send_reply conn rest s r.1)
answer-InOrder conn rest s (done (b, e)) h = send_reply-InOrder conn rest s e h
answer-InOrder conn rest s fault h = tt
answer-InOrder conn rest s out_of_fuel h = tt

consume_first-InOrder :
    (table : Commands) (l : List Task) (s : Tasks)
    → length l ≤ max_size
    → OnDone (InOrder (answered s.sent ++ conns l)) (consume_first table l s)
consume_first-InOrder table [] s h = tt
consume_first-InOrder table (item ∷ rest) s h =
    answer-InOrder item.conn rest s
      (exec_command table item.vec_cmd (record { store = s.store; reply = [] })) (omega arith)

-- Whatever the turns of the producers and the consumer, there are never more than thirty tasks in the
-- queue, and the connections that got a reply, followed by those of the waiting tasks, are those of
-- the tasks that were put in, in that order: no task is lost, answered twice or overtaken.
pub Steps-InOrder :
    (items : List Task) (s s' : Tasks)
    → Steps items s s'
    → length s.deque ≤ max_size
    → InOrder (history s ++ conns items) s'
unfolding consumer
Steps-InOrder _ _ _ (Steps.stay s) h = record {
  bounded = h;
  in_order = sym (append-nil (history s));
}
Steps-InOrder _ _ _ (Steps.produce items item s s' s'' steps q) h =
    let r = Steps-InOrder items s s' steps h in
    let n : InOrder (history s' ++ item.conn ∷ []) s'' =
      subst (OnNext (InOrder (history s' ++ item.conn ∷ []))) q (producer-InOrder item s') in
    record {
      bounded = n.bounded;
      in_order =
          n.in_order
          ∙ ap (λ l. l ++ item.conn ∷ []) r.in_order
          ∙ append_assoc (history s) (conns items) (item.conn ∷ [])
          ∙ ap (λ l. history s ++ l) (sym (conns-append items (item ∷ [])));
    }
Steps-InOrder _ _ _ (Steps.consume table items s s' s'' steps q) h =
    let r = Steps-InOrder items s s' steps h in
    let n : InOrder (history s') s'' =
      subst (OnDone (InOrder (history s'))) q (consume_first-InOrder table s'.deque s' r.bounded) in
    record { bounded = n.bounded; in_order = n.in_order ∙ r.in_order }

answer-ne-waits :
    (conn : Option ℕ) (rest : List Task) (s : Tasks) (o : Outcome (Bool × Env))
    → (o >>= λ r. send_reply conn rest s r.1) ≢ done none
answer-ne-waits none rest s (done (b, e)) q = cc
answer-ne-waits (some c) rest s (done (b, e)) q = cc
answer-ne-waits conn rest s fault q = cc
answer-ne-waits conn rest s out_of_fuel q = cc

pub consume_first-ne-waits :
    (table : Commands) (l : List Task) (s : Tasks)
    → 0 < length l
    → consume_first table l s ≢ done none
consume_first-ne-waits table [] s h = absurd (omega arith)
consume_first-ne-waits table (item ∷ rest) s h =
    answer-ne-waits item.conn rest s
      (exec_command table item.vec_cmd (record { store = s.store; reply = [] }))

pub waits-full : (item : Task) (s : Tasks) → producer item s ≡ none → max_size ≤ length s.deque
unfolding producer
waits-full item s q = elim (Bool-cases (ltb (length s.deque) max_size)) [
  | inl e ↦
      let k =
        sym q ∙ ap (λ b. if b then some (record s { deque = s.deque ++ item ∷ [] }) else none) e in
      cc
  | inr e ↦ ground arith
]

-- A read that holds a request, as an array of bulk strings, offers the task of that request to the
-- queue. Bytes that follow it in the same read, such as those of a second request, change nothing.
pub on_read-array :
    (conn : Option ℕ) (l : List Bytes) (more : Bytes) (s : Tasks)
    → length (array l ++ more) < 2 ^ 31
    → on_read conn (array l ++ more) s ≡ done (producer (record { conn = conn; vec_cmd = l }) s)
unfolding on_read
on_read-array conn l more s h = rw (parse_request-array l more h) refl

offered-idle :
    (item : Task) (s : Tasks)
    → s.deque ≡ []
    → producer item s ≡ some (record s { deque = item ∷ [] })
unfolding producer
offered-idle item s q = rw q refl

consumer-one :
    (table : Commands) (c : ℕ) (l : List Bytes) (s : Tasks) (b : Bool) (e : Env)
    → exec_command table l (record { store = s.store; reply = [] }) ≡ done (b, e)
    → consumer table (record s { deque = record { conn = some c; vec_cmd = l } ∷ [] })
      ≡ done (some (record { deque = []; store = e.store; sent = s.sent ++ (c, e.reply) ∷ [] }))
unfolding consumer
consumer-one table c l s b e q = rw q refl

-- A request that comes in one read while the queue is empty, and whose command ends, is served by the
-- next turn of the consumer: the store is what the command leaves, and its connection, and no other,
-- is sent the reply that the command wrote.
pub request_served :
    (table : Commands) (c : ℕ) (l : List Bytes) (more : Bytes) (s : Tasks) (b : Bool) (e : Env)
    → length (array l ++ more) < 2 ^ 31
    → s.deque ≡ []
    → exec_command table l (record { store = s.store; reply = [] }) ≡ done (b, e)
    → (s' : Tasks) × (on_read (some c) (array l ++ more) s ≡ done (some s'))
      × (consumer table s'
          ≡ done
              (some (record { deque = []; store = e.store; sent = s.sent ++ (c, e.reply) ∷ [] })))
request_served table c l more s b e h q run =
    let item : Task = record { conn = some c; vec_cmd = l } in
    (
      record s { deque = item ∷ [] },
      on_read-array (some c) l more s h ∙ ap done (offered-idle item s q),
      consumer-one table c l s b e run,
    )
