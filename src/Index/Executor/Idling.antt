-- ===== src/Index/Executor/Idling.antt =====
-- The executor: what its thread runs, and how its calls end.
use vecodex.Prelude.{
  ℕ, suc, none≢some, ◌+◌, ◌≡◌, ◌≢◌, refl, sym, ap, ◌∙◌, subst, none, some, List, [], Option-cases,
  inl, inr, arith,
}
use mathlib.Core.Option.{some-injective}
use vecodex.Searcher.{answer, answer_injective, crash}
use vecodex.Index.Executor.{
  Task, IoContext, Thread, absent, spawned, running, ended, Promise, Executor, start_executor,
  stop_execution, async_call, async_add, async_erase, async_search, get_future, ThreadStep,
  make_context, run_task, run_returns, Step, own, start, stop, join, call_add, call_erase,
  call_search, Reach, begin, later, Alone, none_yet, then,
}

-- What boost documents of a context: without work, `run` returns, and only `post` gives it work.
pub record IsContext {Work : Type 0} (C : IoContext Work) : Type 1 where
  pub IsIdle : C.State → Type 0
  pub make-IsIdle : (n : ℕ) → IsIdle (C.make n)
  pub stop-IsIdle : (s : C.State) → IsIdle s → IsIdle (C.stop s)
  pub IsIdle-next : (s : C.State) → IsIdle s → C.next s ≡ none

-- The steps that a thread has left.
abbrev pub steps_left : Thread → ℕ
steps_left absent = 0
steps_left (spawned n) = 2
steps_left running = 1
steps_left ended = 0

module _ {IdType Vec : Type 0} (C : IoContext (Task IdType Vec)) where
  async_call_fails :
      (task : Task IdType Vec) (e : Executor C) (r : Promise × Executor C)
      → ¬ (async_call C none task e ≡ answer r)
  unfolding async_call get_future
  async_call_fails task e r h = ground arith

  start_executor-answer :
      (n : ℕ) (e e' : Executor C)
      → start_executor C n e ≡ answer e'
      → record e { thread = spawned n } ≡ e'
  unfolding start_executor
  start_executor-answer n e e' h =
      elim e.thread
          as (λ t.
            (elim t [
              | absent ↦ answer (record e { thread = spawned n })
              | spawned m ↦ crash
              | running ↦ crash
              | ended ↦ crash
            ])
              ≡ answer e'
            → record e { thread = spawned n } ≡ e') [
              | absent ↦ λ p. answer_injective _ _ p
              | spawned m ↦ λ p. cc
              | running ↦ λ p. cc
              | ended ↦ λ p. cc
            ]
        h

  stop_execution-answer :
      (e e' : Executor C)
      → stop_execution C e ≡ answer e'
      → (s : C.State) × (e.ctx ≡ some s) × (record e { ctx = some (C.stop s) } ≡ e')
  unfolding stop_execution
  stop_execution-answer e e' h = elim (Option-cases e.ctx) [
    | inl p ↦ absurd (ground arith)
    | inr (s, p) ↦ (
      s,
      p,
      elim e.thread
            as (λ t.
              (elim t [
                | absent ↦ crash
                | spawned n ↦ answer (record e { ctx = some (C.stop s) })
                | running ↦ answer (record e { ctx = some (C.stop s) })
                | ended ↦ answer (record e { ctx = some (C.stop s) })
              ])
                ≡ answer e'
              → record e { ctx = some (C.stop s) } ≡ e') [
                | absent ↦ λ q. cc
                | spawned n ↦ λ q. answer_injective _ _ q
                | running ↦ λ q. answer_injective _ _ q
                | ended ↦ λ q. answer_injective _ _ q
              ]
          (rw (stop_execution, p) at h),
    )
  ]

  record IsUnused (K : IsContext C) (e : Executor C) : Type 0 where
    idle : (s : C.State) → e.ctx ≡ some s → K.IsIdle s
    unrun : e.finished ≡ []
    bound : e.thread ≡ running → (s : C.State) × (e.ctx ≡ some s)

  IsUnused-ThreadStep :
      (K : IsContext C) (e e' : Executor C) → IsUnused K e → ThreadStep C e e' → IsUnused K e'
  IsUnused-ThreadStep K e e' u (make_context n h) = record {
    idle = λ s q. subst K.IsIdle (some-injective _ _ q) (K.make-IsIdle n);
    unrun = u.unrun;
    bound = λ t. (C.make n, refl);
  }
  IsUnused-ThreadStep K e e' u (run_task {s = s} h c p) =
      absurd (none≢some (sym (K.IsIdle-next s (u.idle s c)) ∙ p))
  IsUnused-ThreadStep K e e' u (run_returns h c p) = record {
    idle = u.idle;
    unrun = u.unrun;
    bound = λ t. cc;
  }

  IsUnused-Step : (K : IsContext C) (e e' : Executor C) → IsUnused K e → Step C e e' → IsUnused K e'
  unfolding async_add async_erase async_search
  IsUnused-Step K e e' u (own step) = IsUnused-ThreadStep K e e' u step
  IsUnused-Step K e e' u (start n h) =
      subst (IsUnused K) (start_executor-answer n e e' h)
        (record { idle = u.idle; unrun = u.unrun; bound = λ t. cc })
  IsUnused-Step K e e' u (stop h) =
      let (s, c, p) = stop_execution-answer e e' h in
      subst (IsUnused K) p (record {
        idle = λ t q. subst K.IsIdle (some-injective _ _ q) (K.stop-IsIdle s (u.idle s c));
        unrun = u.unrun;
        bound = λ t. (C.stop s, refl);
      })
  IsUnused-Step K e e' u (join h) = record { idle = u.idle; unrun = u.unrun; bound = λ t. cc }
  IsUnused-Step K e e' u (call_add batch h) = absurd (async_call_fails (Task.add batch) e _ h)
  IsUnused-Step K e e' u (call_erase ids h) = absurd (async_call_fails (Task.erase ids) e _ h)
  IsUnused-Step K e e' u (call_search query k h) =
      absurd (async_call_fails (Task.search query k) e _ h)

  Reach-IsUnused : (K : IsContext C) (e : Executor C) → Reach C e → IsUnused K e
  Reach-IsUnused K e begin = record { idle = λ s q. cc; unrun = refl; bound = λ t. cc }
  Reach-IsUnused K e (later {e = d} r step) = IsUnused-Step K d e (Reach-IsUnused K d r) step

  -- However the executor is started and stopped and the asynchronous calls are made, its thread runs no
  -- task, and none waits in its context; and in every state that is reached each of the three calls
  -- fails: it gives no future.
  pub Reach-runs_nothing :
      (K : IsContext C) (e : Executor C)
      → Reach C e
      → (e.finished ≡ [])
        × ((s : C.State) → e.ctx ≡ some s → C.next s ≡ none)
        × ((batch : List (IdType × Vec)) (r : Promise × Executor C)
            → ¬ (async_add C batch e ≡ answer r))
        × ((ids : List IdType) (r : Promise × Executor C) → ¬ (async_erase C ids e ≡ answer r))
        × ((query : Vec) (k : ℕ) (r : Promise × Executor C)
            → ¬ (async_search C query k e ≡ answer r))
  unfolding async_add async_erase async_search
  Reach-runs_nothing K e r =
      let u = Reach-IsUnused K e r in
      (
        u.unrun,
        λ s c. K.IsIdle-next s (u.idle s c),
        λ batch q h. async_call_fails (Task.add batch) e q h,
        λ ids q h. async_call_fails (Task.erase ids) e q h,
        λ query k q h. async_call_fails (Task.search query k) e q h,
      )

  ThreadStep-steps_left :
      (K : IsContext C) (e e' : Executor C)
      → IsUnused K e
      → ThreadStep C e e'
      → suc (steps_left e'.thread) ≡ steps_left e.thread
  ThreadStep-steps_left K e e' u (make_context n h) = sym (ap steps_left h)
  ThreadStep-steps_left K e e' u (run_task {s = s} h c p) =
      absurd (none≢some (sym (K.IsIdle-next s (u.idle s c)) ∙ p))
  ThreadStep-steps_left K e e' u (run_returns h c p) = sym (ap steps_left h)

  Alone-steps_left :
      (K : IsContext C) (e : Executor C) (n : ℕ) (e' : Executor C)
      → IsUnused K e
      → Alone C e n e'
      → IsUnused K e' × (n + steps_left e'.thread ≡ steps_left e.thread)
  Alone-steps_left K e n e' u none_yet = (u, omega arith)
  Alone-steps_left K e n e' u (then {n = m} {e' = d} alone step) =
      let (v, p) = Alone-steps_left K e m d u alone in
      let q = ThreadStep-steps_left K d e' v step in
      (IsUnused-ThreadStep K d e' v step, omega arith)

  ends-Alone :
      (K : IsContext C) (e : Executor C) (t : Thread)
      → IsUnused K e
      → e.thread ≡ t
      → t ≢ absent
      → (e' : Executor C) × Alone C e (steps_left t) e' × (e'.thread ≡ ended)
  ends-Alone K e absent u h n = absurd (n refl)
  ends-Alone K e (spawned n) u h _ = (
    record e { thread = ended; ctx = some (C.make n) },
    then (then none_yet (make_context n h))
        (run_returns refl refl (K.IsIdle-next (C.make n) (K.make-IsIdle n))),
    refl,
  )
  ends-Alone K e running u h _ =
      let (s, c) = u.bound h in
      (
        record e { thread = ended },
        then none_yet (run_returns h c (K.IsIdle-next s (u.idle s c))),
        refl,
      )
  ends-Alone K e ended u h _ = (e, none_yet, h)

  -- In every state that is reached a thread of the executor ends by itself: it takes at most two steps
  -- alone, making the context and returning from `run`, and as long as it has not ended there is one
  -- that it can take.
  pub Reach-ends :
      (K : IsContext C) (e : Executor C)
      → Reach C e
      → ((n : ℕ) (e' : Executor C)
          → Alone C e n e'
          → n + steps_left e'.thread ≡ steps_left e.thread)
        × (e.thread ≢ absent
            → (e' : Executor C) × Alone C e (steps_left e.thread) e' × (e'.thread ≡ ended))
  Reach-ends K e r =
      let u = Reach-IsUnused K e r in
      (λ n e' alone. (Alone-steps_left K e n e' u alone).1, ends-Alone K e e.thread u refl)
