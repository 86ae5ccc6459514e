-- ===== src/Tests/Executor.antt =====
-- An executor over a queue of tasks, started once.
use vecodex.Prelude.{
  ℕ, ◌+◌, ◌≡◌, ◌≢◌, refl, Bool, true, false, Option, none, some, List, [], ◌∷◌, ◌++◌,
}
use vecodex.Searcher.{answer, exception, crash}
use vecodex.Index.Executor.{
  Task, IoContext, absent, spawned, running, ended, Promise, Executor, start_executor, async_call,
  async_add, async_erase, async_search, get_future, make_context, own, start, Reach, begin, later,
  Alone,
}
use vecodex.Index.Executor.Idling.{IsContext, Reach-runs_nothing, steps_left, Reach-ends}

-- Whether the context was stopped, and the tasks that wait.
abbrev next_of : Bool × List (Task ℕ ℕ) → Option (Task ℕ ℕ × (Bool × List (Task ℕ ℕ)))
next_of (true, tasks) = none
next_of (false, []) = none
next_of (false, task ∷ tasks) = some (task, (false, tasks))

abbrev queue : IoContext (Task ℕ ℕ)
queue = record {
  State = Bool × List (Task ℕ ℕ);
  make = λ n. (false, []);
  post = λ task s. (s.0, s.1 ++ task ∷ []);
  stop = λ s. (true, s.1);
  next = next_of;
}

next_of-nil : (b : Bool) → next_of (b, []) ≡ none
next_of-nil true = refl
next_of-nil false = refl

queue-IsContext : IsContext queue
queue-IsContext = record {
  IsIdle = λ s. s.1 ≡ [];
  make-IsIdle = λ n. refl;
  stop-IsIdle = λ s h. h;
  IsIdle-next = λ s h. rw (h) (next_of-nil s.0);
}

abbrev started : Executor queue
started = record { thread = spawned 4; ctx = none; finished = [] }

abbrev at_work : Executor queue
at_work = record { thread = running; ctx = some (false, []); finished = [] }

at_work-Reach : Reach queue at_work
unfolding start_executor
at_work-Reach = later (later begin (start 4 refl)) (own (make_context 4 refl))

Reach-runs_nothing_example :
    (at_work.finished ≡ [])
    × ((s : queue.State) → at_work.ctx ≡ some s → next_of s ≡ none)
    × ((batch : List (ℕ × ℕ)) (r : Promise × Executor queue)
        → ¬ (async_add queue batch at_work ≡ answer r))
    × ((ids : List ℕ) (r : Promise × Executor queue) → ¬ (async_erase queue ids at_work ≡ answer r))
    × ((query k : ℕ) (r : Promise × Executor queue)
        → ¬ (async_search queue query k at_work ≡ answer r))
Reach-runs_nothing_example = Reach-runs_nothing queue queue-IsContext at_work at_work-Reach

Reach-ends_example :
    ((n : ℕ) (e' : Executor queue) → Alone queue at_work n e' → n + steps_left e'.thread ≡ 1)
    × (running ≢ absent → (e' : Executor queue) × Alone queue at_work 1 e' × (e'.thread ≡ ended))
Reach-ends_example = Reach-ends queue queue-IsContext at_work at_work-Reach

too_early : async_add queue ((7, 5) ∷ []) started ≡ exception
unfolding async_add async_call
too_early = refl

no_promise : async_search queue 5 2 at_work ≡ crash
unfolding async_search async_call get_future
no_promise = refl

started_twice : start_executor queue 4 started ≡ crash
unfolding start_executor
started_twice = refl
