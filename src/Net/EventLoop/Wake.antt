-- ===== src/Net/EventLoop/Wake.antt =====
-- The order of the functors, and what wakes the loop.
use yedis.Prelude.{
  ℕ, ◌+◌, ◌≤◌, ◌≡◌, refl, sym, ap, ◌∙◌, Bool, true, false, List, [], ◌∷◌, ◌++◌, append-nil,
  append_assoc, length, length-append, arith,
}
use yedis.Prelude.Maps.{if-cases}
use yedis.Net.EventLoop.{
  Phase, polling, handling, calling, Loop, new_loop, wake_up, handle_read, push_functor,
  wake_queued, queue_in_loop, queue_all, run_functor, run_in_loop, swap_functors, call_functor,
  end_calls, Step, Steps,
}

-- How many functors the loop has to be woken for: none while it handles events, since it looks at the
-- queue before it polls.
abbrev pub due : Phase → ℕ → ℕ
due polling n = n
due handling n = 0
due calling n = n

-- What is in the vector that is not there outside `doPendingFunctors`.
abbrev stray : {F : Type 0} → Phase → List F → List F
stray polling fs = fs
stray handling fs = fs
stray calling fs = []

abbrev flag_in : Phase → Bool → Bool
flag_in polling b = true
flag_in handling b = true
flag_in calling b = b

due-suc : (ph : Phase) (n : ℕ) → due ph (n + 1) ≤ due ph n + 1
due-suc polling n = omega arith
due-suc handling n = omega arith
due-suc calling n = omega arith

module _ {F : Type 0} where
  pub record Punctual (l : Loop F) : Type 0 where
    pub in_order : l.ran ++ (l.vec_functors ++ l.pending_functor) ≡ l.posted
    pub woken : due l.phase (length l.pending_functor) ≤ l.counter + l.queueing
    pub flagged : flag_in l.phase l.calling_pending_functor ≡ true
    pub no_stray : stray l.phase l.vec_functors ≡ []

  pushed-in_order :
      (f : F) (l : Loop F)
      → l.ran ++ (l.vec_functors ++ l.pending_functor) ≡ l.posted
      → l.ran ++ (l.vec_functors ++ (l.pending_functor ++ f ∷ [])) ≡ l.posted ++ f ∷ []
  pushed-in_order f l h =
      ap (λ s. l.ran ++ s) (sym (append_assoc l.vec_functors l.pending_functor (f ∷ [])))
      ∙ sym (append_assoc l.ran (l.vec_functors ++ l.pending_functor) (f ∷ []))
      ∙ ap (λ s. s ++ f ∷ []) h

  -- A push for which the loop is woken, or is still to be woken.
  pushed-Punctual :
      (f : F) (counter queueing : ℕ) {l : Loop F}
      → counter + queueing ≡ l.counter + l.queueing + 1
      → Punctual l
      → Punctual (record (push_functor f l) { counter = counter; queueing = queueing })
  pushed-Punctual f counter queueing {l} e v = record {
    in_order = pushed-in_order f l v.in_order;
    woken = omega (
      arith,
      due-suc l.phase (length l.pending_functor),
      v.woken,
      ap (due l.phase) (length-append l.pending_functor (f ∷ [])),
    );
    flagged = v.flagged;
    no_stray = v.no_stray;
  }

  quiet-Punctual :
      (f : F) {l : Loop F} → l.phase ≡ handling → Punctual l → Punctual (push_functor f l)
  quiet-Punctual f {l} e v =
      let none_due = ap (λ ph. due ph (length (l.pending_functor ++ f ∷ []))) e in
      record {
        in_order = pushed-in_order f l v.in_order;
        woken = omega (arith, none_due);
        flagged = v.flagged;
        no_stray = v.no_stray;
      }

  queue_in_loop-posted : (f : F) {l : Loop F} → Punctual l → Punctual (queue_in_loop false f l)
  unfolding queue_in_loop
  queue_in_loop-posted f {l} v = pushed-Punctual f l.counter (l.queueing + 1) (omega arith) v

  wake_queued-Punctual :
      (n : ℕ) {l : Loop F}
      → l.queueing ≡ n + 1
      → Punctual l
      → Punctual (wake_queued false (record l { queueing = n }))
  unfolding wake_queued wake_up
  wake_queued-Punctual n {l} e v = record {
    in_order = v.in_order;
    woken = omega (arith, v.woken);
    flagged = v.flagged;
    no_stray = v.no_stray;
  }

  -- In the loop's thread while it calls functors.
  queue_in_loop-calling :
      (f : F) {l : Loop F}
      → l.calling_pending_functor ≡ true
      → Punctual l
      → Punctual (queue_in_loop true f l)
  unfolding queue_in_loop wake_queued wake_up
  queue_in_loop-calling f {l} e v =
      if-cases Punctual l.calling_pending_functor
        (λ h. pushed-Punctual f (l.counter + 1) l.queueing (omega arith) v)
        (λ h. absurd (cc (e, h)))

  -- While the events are handled.
  queue_in_loop-handling :
      (f : F) {l : Loop F} → l.phase ≡ handling → Punctual l → Punctual (queue_in_loop true f l)
  unfolding queue_in_loop wake_queued wake_up
  queue_in_loop-handling f {l} e v =
      if-cases Punctual l.calling_pending_functor
        (λ h. pushed-Punctual f (l.counter + 1) l.queueing (omega arith) v)
        (λ h. quiet-Punctual f e v)

  queue_in_loop-phase : (f : F) (l : Loop F) → (queue_in_loop true f l).phase ≡ l.phase
  unfolding queue_in_loop wake_queued wake_up
  queue_in_loop-phase f l =
      if-cases (λ (m : Loop F). m.phase ≡ l.phase) l.calling_pending_functor (λ h. refl) (λ h. refl)

  queue_in_loop-flag :
      (f : F) (l : Loop F)
      → (queue_in_loop true f l).calling_pending_functor ≡ l.calling_pending_functor
  unfolding queue_in_loop wake_queued wake_up
  queue_in_loop-flag f l =
      if-cases (λ (m : Loop F). m.calling_pending_functor ≡ l.calling_pending_functor)
        l.calling_pending_functor (λ h. refl) (λ h. refl)

  queue_all-handling :
      (fs : List F) {l : Loop F} → l.phase ≡ handling → Punctual l → Punctual (queue_all fs l)
  queue_all-handling [] e v = v
  queue_all-handling (f ∷ fs) {l} e v =
      queue_all-handling fs (queue_in_loop-phase f l ∙ e) (queue_in_loop-handling f e v)

  queue_all-calling :
      (fs : List F) {l : Loop F}
      → l.calling_pending_functor ≡ true
      → Punctual l
      → Punctual (queue_all fs l)
  queue_all-calling [] e v = v
  queue_all-calling (f ∷ fs) {l} e v =
      queue_all-calling fs (queue_in_loop-flag f l ∙ e) (queue_in_loop-calling f e v)

  swap_functors-Punctual :
      {l : Loop F} → l.phase ≡ handling → Punctual l → Punctual (swap_functors l)
  unfolding swap_functors
  swap_functors-Punctual {l} e v =
      let empty : l.vec_functors ≡ [] = sym (ap (λ ph. stray ph l.vec_functors) e) ∙ v.no_stray in
      record {
        in_order =
            ap (λ s. l.ran ++ s) (append-nil l.pending_functor)
            ∙ ap (λ s. l.ran ++ (s ++ l.pending_functor)) (sym empty)
            ∙ v.in_order;
        woken = omega arith;
        flagged = refl;
        no_stray = refl;
      }

  end_calls-Punctual :
      {l : Loop F} → l.phase ≡ calling → l.vec_functors ≡ [] → Punctual l → Punctual (end_calls l)
  unfolding end_calls
  end_calls-Punctual {l} e h v = record {
    in_order = v.in_order;
    woken = omega (arith, v.woken, ap (λ ph. due ph (length l.pending_functor)) e);
    flagged = refl;
    no_stray = h;
  }

module _ {F : Type 0} (spawn : F → List F) where
  call_functor-Punctual :
      (f : F) (rest : List F) {l : Loop F}
      → l.phase ≡ calling
      → l.vec_functors ≡ f ∷ rest
      → Punctual l
      → Punctual (call_functor spawn f rest l)
  unfolding call_functor run_functor
  call_functor-Punctual f rest {l} e h v =
      queue_all-calling (spawn f)
        (sym (ap (λ ph. flag_in ph l.calling_pending_functor) e) ∙ v.flagged)
        (record {
          in_order =
              append_assoc l.ran (f ∷ []) (rest ++ l.pending_functor)
              ∙ ap (λ s. l.ran ++ (s ++ l.pending_functor)) (sym h)
              ∙ v.in_order;
          woken = v.woken;
          flagged = v.flagged;
          no_stray = ap (λ ph. stray ph rest) e;
        })

  Step-Punctual : (l m : Loop F) → Step spawn l m → Punctual l → Punctual m
  unfolding run_in_loop run_functor handle_read
  Step-Punctual l m (Step.posts f _) v = queue_in_loop-posted f v
  Step-Punctual l m (Step.runs f _) v = queue_in_loop-posted f v
  Step-Punctual l m (Step.wakes n _ e) v = wake_queued-Punctual n e v
  Step-Punctual l m (Step.polled _ e) v = record {
    in_order = v.in_order;
    woken = omega arith;
    flagged = refl;
    no_stray = sym (ap (λ ph. stray ph l.vec_functors) e) ∙ v.no_stray;
  }
  Step-Punctual l m (Step.drained _ e) v = record {
    in_order = v.in_order;
    woken = omega (arith, ap (λ ph. due ph (length l.pending_functor)) e);
    flagged = v.flagged;
    no_stray = v.no_stray;
  }
  Step-Punctual l m (Step.handles f _ e) v = queue_in_loop-handling f e v
  Step-Punctual l m (Step.handles_run f _ e) v = queue_all-handling (spawn f) e v
  Step-Punctual l m (Step.swaps _ e) v = swap_functors-Punctual e v
  Step-Punctual l m (Step.calls f rest _ e h) v = call_functor-Punctual f rest e h v
  Step-Punctual l m (Step.ends _ e h) v = end_calls-Punctual e h v

  Steps-Punctual : (l m : Loop F) → Steps spawn l m → Punctual l → Punctual m
  Steps-Punctual l m (Steps.stays _) v = v
  Steps-Punctual l m (Steps.goes _ k _ steps step) v =
      Step-Punctual k m step (Steps-Punctual l k steps v)

-- Whatever the turns of a new loop and of other threads, and whatever the functors queue themselves:
-- the functors that ran, those that are being run and those that wait are, one behind the other, those
-- that were queued, in their order and each once; and whenever the loop waits in `poll`, or is on its
-- way there, the wake-ups that it has not read yet, together with those that other threads are still to
-- give for functors that they have queued, are at least as many as the functors that wait.
pub Steps-new_loop :
    {F : Type 0} (spawn : F → List F) (l : Loop F)
    → Steps spawn new_loop l
    → (l.ran ++ (l.vec_functors ++ l.pending_functor) ≡ l.posted)
      × (due l.phase (length l.pending_functor) ≤ l.counter + l.queueing)
Steps-new_loop {F} spawn l steps =
    let start : Punctual (new_loop {F = F}) = record {
      in_order = refl;
      woken = omega arith;
      flagged = refl;
      no_stray = refl;
    } in
    let v = Steps-Punctual spawn new_loop l steps start in (v.in_order, v.woken)
