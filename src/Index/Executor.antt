-- ===== src/Index/Executor.antt =====
-- The executor of IIndex and its asynchronous calls (index/include/IIndex.h).
pub mod Idling
use vecodex.Prelude.{ℕ, suc, ◌≡◌, Option, none, some, List, ◌∷◌, []}
use vecodex.Searcher.{Outcome, answer, exception, crash, and_then}

-- What the task of an asynchronous call does.
pub data Task (IdType Vec : Type 0) : Type 0 where
  add : List (IdType × Vec) → Task IdType Vec
  erase : List IdType → Task IdType Vec
  search : Vec → ℕ → Task IdType Vec

-- boost::asio::io_context, which is not part of the repository. `next` is the next task of `run`, with
-- the context after it is taken; `none` means that `run` returns.
pub record IoContext (Work : Type 0) : Type 1 where
  pub State : Type 0
  pub make : ℕ → State
  pub post : Work → State → State
  pub stop : State → State
  pub next : State → Option (Work × State)

-- `execution_thread_`, and where its thread stands: before it makes the context, in `run`, or at its
-- end.
pub data Thread : Type 0 where
  absent : Thread
  spawned : ℕ → Thread
  running ended : Thread

-- A promise, whose future has its number.
pub data Promise : Type 0 where
  promise : ℕ → Promise

module _ {IdType Vec : Type 0} (C : IoContext (Task IdType Vec)) where
  -- `finished` is the tasks that the thread has run, the last one first.
  pub record Executor : Type 0 where
    pub thread : Thread
    pub ctx : Option C.State
    pub finished : List (Task IdType Vec)

  abbrev pub no_executor : Executor
  no_executor = record { thread = absent; ctx = none; finished = [] }

  -- The pointer is `absent` or the thread can be joined: then its destruction ends the process.
  unfoldable pub start_executor : ℕ → Executor → Outcome Executor
  start_executor thread_num e = elim e.thread [
    | absent ↦ answer (record e { thread = spawned thread_num })
    | spawned n ↦ crash
    | running ↦ crash
    | ended ↦ crash
  ]

  -- StopExecution up to `join`, which waits for the thread.
  unfoldable pub stop_execution : Executor → Outcome Executor
  stop_execution e = elim e.ctx [
    | none ↦ crash
    | some s ↦ elim e.thread [
      | absent ↦ crash
      | spawned n ↦ answer (record e { ctx = some (C.stop s) })
      | running ↦ answer (record e { ctx = some (C.stop s) })
      | ended ↦ answer (record e { ctx = some (C.stop s) })
    ]
  ]

  -- A call of get_future through a pointer.
  unfoldable pub get_future : Option Promise → Outcome Promise
  get_future none = crash
  get_future (some p) = answer p

  -- What the three calls share: the future, and the task that is posted.
  unfoldable pub async_call :
      Option Promise → Task IdType Vec → Executor → Outcome (Promise × Executor)
  unfolding get_future
  async_call promise_ptr task e = elim e.ctx [
    | none ↦ exception
    | some s ↦
        and_then (get_future promise_ptr) (λ f. answer (f, record e { ctx = some (C.post task s) }))
  ]

  -- `promise_ptr` is declared and gets no promise.
  unfoldable pub async_add : List (IdType × Vec) → Executor → Outcome (Promise × Executor)
  unfolding async_call
  async_add batch e = async_call none (add batch) e

  unfoldable pub async_erase : List IdType → Executor → Outcome (Promise × Executor)
  unfolding async_call
  async_erase ids e = async_call none (erase ids) e

  unfoldable pub async_search : Vec → ℕ → Executor → Outcome (Promise × Executor)
  unfolding async_call
  async_search query k e = async_call none (search query k) e

  -- A step of the executor's thread.
  pub data ThreadStep (e : Executor) : Executor → Type 0 where
    make_context :
        (n : ℕ)
        → e.thread ≡ spawned n
        → ThreadStep e (record e { thread = running; ctx = some (C.make n) })
    run_task :
        {s s' : C.State} {task : Task IdType Vec}
        → e.thread ≡ running
        → e.ctx ≡ some s
        → C.next s ≡ some (task, s')
        → ThreadStep e (record e { ctx = some s'; finished = task ∷ e.finished })
    run_returns :
        {s : C.State}
        → e.thread ≡ running
        → e.ctx ≡ some s
        → C.next s ≡ none
        → ThreadStep e (record e { thread = ended })

  -- A step of the executor's thread or a call that ends well, in any order.
  pub data Step (e : Executor) : Executor → Type 0 where
    own : {e' : Executor} → ThreadStep e e' → Step e e'
    start : (n : ℕ) {e' : Executor} → start_executor n e ≡ answer e' → Step e e'
    stop : {e' : Executor} → stop_execution e ≡ answer e' → Step e e'
    join : e.thread ≡ ended → Step e (record e { thread = absent })
    call_add :
        (batch : List (IdType × Vec)) {f : Promise} {e' : Executor}
        → async_add batch e ≡ answer (f, e')
        → Step e e'
    call_erase :
        (ids : List IdType) {f : Promise} {e' : Executor}
        → async_erase ids e ≡ answer (f, e')
        → Step e e'
    call_search :
        (query : Vec) (k : ℕ) {f : Promise} {e' : Executor}
        → async_search query k e ≡ answer (f, e')
        → Step e e'

  pub data Reach : Executor → Type 0 where
    begin : Reach no_executor
    later : {e e' : Executor} → Reach e → Step e e' → Reach e'

  -- `n` steps of the executor's thread.
  pub data Alone (e : Executor) : ℕ → Executor → Type 0 where
    none_yet : Alone e 0 e
    then : {n : ℕ} {e' e'' : Executor} → Alone e n e' → ThreadStep e' e'' → Alone e (suc n) e''
