-- ===== src/Net/EventLoop.antt =====
-- net/EventLoop.cpp: what is given to an event loop to do, by its own thread and by others.
-- A functor is known by what it queues itself when it is called (`spawn`), in the loop's thread. The
-- write that wakes the loop succeeds.
pub mod Wake
use yedis.Prelude.{ℕ, ◌+◌, ◌≡◌, Bool, true, false, List, [], ◌∷◌, ◌++◌, not, ◌||◌, if◌then◌else◌}

-- Where `loop()` is: in `poll`, at the active channels, or in `doPendingFunctors` behind the swap.
pub data Phase : Type 0 where
  polling handling calling : Phase

-- `counter` is the value of the `eventfd`. `queueing` is how many calls of `queueInLoop` in other threads
-- have released the lock and not called `wakeUp` yet. `vec_functors` is the vector that was swapped out. `posted`
-- and `ran` are what was queued and what was called from the queue, in order.
pub record Loop (F : Type 0) : Type 0 where
  pub phase : Phase
  pub calling_pending_functor : Bool
  pub pending_functor : List F
  pub vec_functors : List F
  pub counter : ℕ
  pub queueing : ℕ
  pub posted : List F
  pub ran : List F

-- A loop at the start of `loop()`, for a flag that starts as false.
abbrev pub new_loop : {F : Type 0} → Loop F
new_loop = record {
  phase = polling;
  calling_pending_functor = false;
  pending_functor = [];
  vec_functors = [];
  counter = 0;
  queueing = 0;
  posted = [];
  ran = [];
}

module _ {F : Type 0} where
  -- 1 is added to the `eventfd`.
  unfoldable pub wake_up : Loop F → Loop F
  wake_up l = record l { counter = l.counter + 1 }

  -- A read sets the `eventfd` to 0.
  unfoldable pub handle_read : Loop F → Loop F
  handle_read l = record l { counter = 0 }

  -- What is done while the lock is held.
  abbrev pub push_functor : F → Loop F → Loop F
  push_functor f l = record l {
    pending_functor = l.pending_functor ++ f ∷ [];
    posted = l.posted ++ f ∷ [];
  }

  -- What `queueInLoop` does when it has released the lock.
  unfoldable pub wake_queued : Bool → Loop F → Loop F
  unfolding wake_up
  wake_queued in_loop_thread l =
      if not in_loop_thread || l.calling_pending_functor then wake_up l else l

  -- In the loop's thread the call ends before the loop goes on. In another thread it is two steps, and
  -- this is the first: `Step.wakes` is the second.
  unfoldable pub queue_in_loop : Bool → F → Loop F → Loop F
  unfolding wake_queued
  queue_in_loop in_loop_thread f l =
      if in_loop_thread
      then wake_queued in_loop_thread (push_functor f l)
      else record (push_functor f l) { queueing = l.queueing + 1 }

  abbrev pub queue_all : List F → Loop F → Loop F
  queue_all [] l = l
  queue_all (f ∷ fs) l = queue_all fs (queue_in_loop true f l)

  -- `doPendingFunctors` up to its loop, and behind it.
  unfoldable pub swap_functors : Loop F → Loop F
  swap_functors l = record l {
    phase = calling;
    calling_pending_functor = true;
    vec_functors = l.pending_functor;
    pending_functor = [];
  }

  unfoldable pub end_calls : Loop F → Loop F
  end_calls l = record l { phase = polling; calling_pending_functor = false }

module _ {F : Type 0} (spawn : F → List F) where
  -- `cb()`, in the loop's thread
  unfoldable pub run_functor : F → Loop F → Loop F
  unfolding queue_in_loop
  run_functor f l = queue_all (spawn f) l

  unfoldable pub run_in_loop : Bool → F → Loop F → Loop F
  unfolding run_functor queue_in_loop
  run_in_loop in_loop_thread f l =
      if in_loop_thread then run_functor f l else queue_in_loop in_loop_thread f l

  -- One round of the loop of `doPendingFunctors`.
  unfoldable pub call_functor : F → List F → Loop F → Loop F
  unfolding run_functor
  call_functor f rest l = run_functor f (record l { vec_functors = rest; ran = l.ran ++ f ∷ [] })

  -- The turns of the loop and of other threads. In `handling` the channels' callbacks may call
  -- `handleRead`, `runInLoop` and `queueInLoop`.
  pub data Step : Loop F → Loop F → Type 0 where
    posts : (f : F) (l : Loop F) → Step l (queue_in_loop false f l)
    runs : (f : F) (l : Loop F) → Step l (run_in_loop false f l)
    wakes :
        (n : ℕ) (l : Loop F)
        → l.queueing ≡ n + 1
        → Step l (wake_queued false (record l { queueing = n }))
    polled : (l : Loop F) → l.phase ≡ polling → Step l (record l { phase = handling })
    drained : (l : Loop F) → l.phase ≡ handling → Step l (handle_read l)
    handles : (f : F) (l : Loop F) → l.phase ≡ handling → Step l (queue_in_loop true f l)
    handles_run : (f : F) (l : Loop F) → l.phase ≡ handling → Step l (run_in_loop true f l)
    swaps : (l : Loop F) → l.phase ≡ handling → Step l (swap_functors l)
    calls :
        (f : F) (rest : List F) (l : Loop F)
        → l.phase ≡ calling
        → l.vec_functors ≡ f ∷ rest
        → Step l (call_functor f rest l)
    ends : (l : Loop F) → l.phase ≡ calling → l.vec_functors ≡ [] → Step l (end_calls l)

  pub data Steps : Loop F → Loop F → Type 0 where
    stays : (l : Loop F) → Steps l l
    goes : (l m n : Loop F) → Steps l m → Step m n → Steps l n
