-- ===== src/Tasks/Signals.antt =====
-- The two condition variables of src/TaskManager.cpp: which threads sleep, and who wakes them.
use yedis.Prelude.{
  ◌≤◌, ◌≡◌, refl, sym, subst, ap, ◌∙◌, ◌⊎◌, inl, inr, Bool, true, false, Option, none, some, List,
  [], ◌∷◌, ◌++◌, length, length-append, ltb, if◌then◌else◌, Bool-cases, arith,
}
use yedis.Outcome.{Outcome, done, fault, out_of_fuel, ◌>>=◌, done-injective}
use yedis.Commands.{Commands}
use yedis.Tasks.{Task, Tasks, max_size, producer, consumer, consume_first}
use yedis.Tasks.Order.{waits-full, consume_first-ne-waits}

-- `blocked` are the tasks of the producers that sleep in `m_repositoryNotFull`, `notified` those of the
-- producers that have been woken and do not have the lock yet. `asleep` is whether the consumer sleeps
-- in `m_repositoryNotEmpty`.
pub record Threads : Type 0 where
  pub tasks : Tasks
  pub blocked : List Task
  pub notified : List Task
  pub asleep : Bool

-- Nobody sleeps.
abbrev pub all_awake : Tasks → Threads
all_awake s = record { tasks = s; blocked = []; notified = []; asleep = false }

-- The test of a producer failed, or its task is in the queue and `notify_all` wakes the consumer.
abbrev pub offered : Task → Option Tasks → Threads → Threads
offered item none t = record t { blocked = t.blocked ++ item ∷ [] }
offered item (some s) t = record t { tasks = s; asleep = false }

-- A producer that has the lock tests whether there is room.
unfoldable pub produce_or_sleep : Task → Threads → Threads
unfolding producer
produce_or_sleep item t = offered item (producer item t.tasks) t

-- The test of the consumer failed, or a task is served and `notify_all` wakes the producers.
abbrev pub served : Threads → Option Tasks → Threads
served t none = record t { asleep = true }
served t (some s) = record t { tasks = s; blocked = []; notified = t.notified ++ t.blocked }

-- The consumer that has the lock tests whether there is a task.
unfoldable pub consume_or_sleep : Commands → Threads → Outcome Threads
unfolding consumer
consume_or_sleep table t = consumer table t.tasks >>= λ o. done (served t o)

-- The turns of the threads. A thread may also wake without being notified.
pub data Turns : Threads → Threads → Type 0 where
  stays : (t : Threads) → Turns t t
  offers : (item : Task) (k t : Threads) → Turns k t → Turns k (produce_or_sleep item t)
  retries :
      (before after : List Task) (item : Task) (k t : Threads)
      → Turns k t
      → t.notified ≡ before ++ item ∷ after
      → Turns k (produce_or_sleep item (record t { notified = before ++ after }))
  stirs :
      (before after : List Task) (item : Task) (k t : Threads)
      → Turns k t
      → t.blocked ≡ before ++ item ∷ after
      → Turns k (produce_or_sleep item (record t { blocked = before ++ after }))
  consumer_stirs : (k t : Threads) → Turns k t → Turns k (record t { asleep = false })
  consumes :
      (table : Commands) (k t t' : Threads)
      → Turns k t
      → t.asleep ≡ false
      → consume_or_sleep table t ≡ done t'
      → Turns k t'

-- The consumer sleeps only if there is no task, and producers only if there is no room.
pub record Alert (t : Threads) : Type 0 where
  pub consumer_awake : (t.asleep ≡ false) ⊎ (t.tasks.deque ≡ [])
  pub producers_awake : (t.blocked ≡ []) ⊎ (max_size ≤ length t.tasks.deque)

some-deque :
    (item : Task) (s s' : Tasks) → producer item s ≡ some s' → s'.deque ≡ s.deque ++ item ∷ []
unfolding producer
some-deque item s s' q =
    let way : Bool → Option Tasks =
      λ b. if b then some (record s { deque = s.deque ++ item ∷ [] }) else none in
    elim (Bool-cases (ltb (length s.deque) max_size)) [
      | inl e ↦
          let same : record s { deque = s.deque ++ item ∷ [] } ≡ s' = cc (sym (ap way e) ∙ q) in
          sym (ap (λ (r : Tasks). r.deque) same)
      | inr e ↦ absurd (cc (sym (ap way e) ∙ q))
    ]

offered-Alert :
    (item : Task) (o : Option Tasks) (t : Threads)
    → producer item t.tasks ≡ o
    → Alert t
    → Alert (offered item o t)
offered-Alert item none t q v = record {
  consumer_awake = v.consumer_awake;
  producers_awake = inr (waits-full item t.tasks q);
}
offered-Alert item (some s) t q v = record {
  consumer_awake = inl refl;
  producers_awake = elim v.producers_awake [
    | inl e ↦ inl e
    | inr full ↦ inr (
        omega (
          arith,
          full,
          ap (λ (l : List Task). length l) (some-deque item t.tasks s q),
          length-append t.tasks.deque (item ∷ []),
        ))
  ];
}

produce_or_sleep-Alert : (item : Task) (t : Threads) → Alert t → Alert (produce_or_sleep item t)
unfolding produce_or_sleep
produce_or_sleep-Alert item t v = offered-Alert item (producer item t.tasks) t refl v

none-empty :
    (table : Commands) (l : List Task) (s : Tasks) → consume_first table l s ≡ done none → l ≡ []
none-empty table [] s q = refl
none-empty table (item ∷ rest) s q =
    absurd (consume_first-ne-waits table (item ∷ rest) s (omega arith) q)

served-Alert :
    (table : Commands) (o : Outcome (Option Tasks)) (t t' : Threads)
    → consumer table t.tasks ≡ o
    → t.asleep ≡ false
    → (o >>= λ r. done (served t r)) ≡ done t'
    → Alert t
    → Alert t'
unfolding consumer
served-Alert table fault t t' q awake run v = absurd (cc run)
served-Alert table out_of_fuel t t' q awake run v = absurd (cc run)
served-Alert table (done none) t t' q awake run v = subst Alert (done-injective run) (record {
  consumer_awake = inr (none-empty table t.tasks.deque t.tasks q);
  producers_awake = v.producers_awake;
})
served-Alert table (done (some s)) t t' q awake run v =
    subst Alert (done-injective run)
      (record { consumer_awake = inl awake; producers_awake = inl refl })

stirred-Alert :
    (before after : List Task) (item : Task) (t : Threads)
    → t.blocked ≡ before ++ item ∷ after
    → Alert t
    → Alert (record t { blocked = before ++ after })
stirred-Alert before after item t e v = record {
  consumer_awake = v.consumer_awake;
  producers_awake = elim v.producers_awake [
    | inl none_blocked ↦ absurd (
        omega (
          arith,
          ap (λ (l : List Task). length l) (sym e ∙ none_blocked),
          length-append before (item ∷ after),
        ))
    | inr full ↦ inr full
  ];
}

Turns-Alert : (k t : Threads) → Turns k t → Alert k → Alert t
unfolding consume_or_sleep
Turns-Alert k t (Turns.stays _) v = v
Turns-Alert k _ (Turns.offers item _ t turns) v =
    produce_or_sleep-Alert item t (Turns-Alert k t turns v)
Turns-Alert k _ (Turns.retries before after item _ t turns e) v =
    let w = Turns-Alert k t turns v in
    produce_or_sleep-Alert item (record t { notified = before ++ after })
      (record { consumer_awake = w.consumer_awake; producers_awake = w.producers_awake })
Turns-Alert k _ (Turns.stirs before after item _ t turns e) v =
    produce_or_sleep-Alert item (record t { blocked = before ++ after })
      (stirred-Alert before after item t e (Turns-Alert k t turns v))
Turns-Alert k _ (Turns.consumer_stirs _ t turns) v = record {
  consumer_awake = inl refl;
  producers_awake = (Turns-Alert k t turns v).producers_awake;
}
Turns-Alert k t' (Turns.consumes table _ t _ turns awake run) v =
    served-Alert table (consumer table t.tasks) t t' refl awake run (Turns-Alert k t turns v)

never_both : (t : Threads) → Alert t → (t.asleep ≡ false) ⊎ (t.blocked ≡ [])
never_both t v = elim v.consumer_awake [
  | inl e ↦ inl e
  | inr empty ↦ elim v.producers_awake [
    | inl none_blocked ↦ inr none_blocked
    | inr full ↦ absurd (omega (arith, full, ap (λ (l : List Task). length l) empty))
  ]
]

-- No wake-up is lost, whatever the turns of the producers and the consumer from a state in which nobody
-- sleeps: the consumer sleeps only while the queue is empty, a producer that has not been notified only
-- while the queue is full, and the two never at once.
pub Turns-all_awake :
    (s : Tasks) (t : Threads)
    → Turns (all_awake s) t
    → Alert t × ((t.asleep ≡ false) ⊎ (t.blocked ≡ []))
Turns-all_awake s t turns =
    let v =
      Turns-Alert (all_awake s) t turns
        (record { consumer_awake = inl refl; producers_awake = inl refl }) in
    (v, never_both t v)
