-- ===== src/Tests/Callbacks.antt =====
-- A writer with one shard, three documents and a turn of its pool.
use vecodex.Prelude.{
  ℕ, ◌≡◌, ◌≢◌, refl, ap, ◌∙◌, arith, sym, subst, inl, inr, true, false, Option, none, some, List,
  [], ◌∷◌, ◌++◌, map, nat_key, nat_order, lookup, has_key, insert, member, ℕ_discrete,
}
use vecodex.Segment.{Segment}
use vecodex.Segment.Files.{SegmentPtr, IsWritablePtr, flat_segment}
use vecodex.Index.State
use vecodex.Index.State.{Index, init}
use vecodex.Index.Operations
use vecodex.FaissIndex
use vecodex.Segment
use vecodex.Writer.Targeting.{target}
use vecodex.Coordinator.Handler.{shards_of, set_shard}
use vecodex.EtcdClient.{Text}
use vecodex.StorageClient.Transferring.{session}
use vecodex.Searcher.{answer}
use vecodex.Writer.{EtcdView, WriteRequest, WriterImpl, IndexOps, ok, crash, create_writer}
use vecodex.Writer.Indexes.{library, IndexConfig}
use vecodex.Writer.Publishing.{CallbackState, index_update_callback}
use vecodex.Writer.Publishing.Informing.{index_update_callback_lem}
use vecodex.Writer.Callbacks.{
  Task, WriterServer, started, handle_request, run_task, join, Reach, begin, later, handles,
}
use vecodex.Writer.Callbacks.Logged.{calls_of}
use vecodex.Writer.Callbacks.Ordering.{Reach-create_writer}
use vecodex.Writer.Callbacks.Joining.{IsRunnable, Reach-join}
use vecodex.Writer.Callbacks.Current.{Reach-run_task}
use vecodex.RpcClients.{update_index}
use mathlib.Core.List.{Memᴰ}
use mathlib.Core.List.Memᴰ as Memᴰ
use vecodex.Tests.EtcdClient.{text_key}
use vecodex.Samples.{flat}
use vecodex.Tests.Segments.{rand}
use vecodex.Tests.Files.{base, binary}
use vecodex.Tests.Publishing.{
  memory, listener, server, hash, memory-IsStorage, listed, credentials, index, shard,
}

abbrev view : EtcdView Text ℕ
view = record { list_shard_ids = λ i. some (shard ∷ []); average_response_time = λ i s. some 3 }

abbrev lib : IndexOps Text IndexConfig ℕ ℕ
lib = library Text base rand

abbrev items : List (Text × IndexConfig)
items = (index, record { threshold = 2; enable_merge = true }) ∷ []

abbrev request : ℕ → WriteRequest Text ℕ ℕ
request i = record { index_id = some index; delete = false; id = i; vector_data = 7 }

abbrev created : WriterImpl lib
created = (create_writer lib view items).1

abbrev quiet : CallbackState memory listener
quiet = record { files = []; storage = λ b k. none; searchers = []; callback_calls_count = [] }

abbrev at_start : WriterServer base rand memory listener
at_start = started base rand memory listener created quiet

abbrev write : ℕ → WriterServer base rand memory listener → WriterServer base rand memory listener
write i y = (handle_request base rand memory listener view (request i) y).1

abbrev written : WriterServer base rand memory listener
written = write 3 (write 2 (write 1 at_start))

abbrev Reached : WriterServer base rand memory listener → Type 0
Reached y =
    Reach ℕ {Flat = base} {Hnsw = base} base rand binary binary memory hash listener server
      (session credentials) flat_segment at_start y

ok≢crash : ok ≢ crash
ok≢crash h = cc

written-Reached : Reached written
unfolding handle_request create_writer set_shard lookup has_key insert member ℕ_discrete
    Operations.add init FaissIndex.size FaissIndex.create Segment.add_vector_batch
    FaissIndex.add_batch State.place State.push_at State.grow_levels
written-Reached =
    later
      (later (later begin (handles view (request 1) ok≢crash)) (handles view (request 2) ok≢crash))
      (handles view (request 3) ok≢crash)

started_lem : create_writer lib view items ≡ (true, created)
unfolding create_writer insert has_key shards_of lookup
started_lem = refl

abbrev holding : Option (Index base)
holding = lookup shard (shards_of index written.writer.shards)

abbrev indexed : Index base
indexed = elim holding [ none ↦ init base rand 2 true | some x ↦ x ]

indexed_lem : holding ≡ some indexed
unfolding lookup handle_request create_writer insert has_key ℕ_discrete member set_shard
indexed_lem = refl

Reach-create_writer_example :
    calls_of base index shard written.done ++ calls_of base index shard written.queue
    ≡ indexed.updates
Reach-create_writer_example =
    Reach-create_writer ℕ {Flat = base} {Hnsw = base} base rand binary binary memory hash listener
      server (session credentials) flat_segment view items created quiet written index shard indexed
      started_lem written-Reached indexed_lem

abbrev first_of : List (Task base) → Task base
first_of [] = record {
  index_id = index;
  shard_id = shard;
  update = record { erased = []; inserted = [] };
  heap = indexed.heap;
  is_live = false;
}
first_of (t ∷ ts) = t

abbrev waiting : Task base
waiting = first_of written.queue

waiting_lem : written.queue ≡ waiting ∷ []
unfolding lookup handle_request create_writer insert has_key ℕ_discrete member target set_shard init
    Operations.add FaissIndex.size FaissIndex.create Segment.add_vector_batch FaissIndex.add_batch
    State.place State.push_at State.grow_levels
waiting_lem = refl

waiting-queue : Memᴰ waiting written.queue
waiting-queue = subst (λ l. Memᴰ waiting l) (sym waiting_lem) (Memᴰ.head refl)

waiting-live : waiting.is_live ≡ true
unfolding lookup handle_request create_writer insert has_key ℕ_discrete member target set_shard init
    Operations.add FaissIndex.size FaissIndex.create Segment.add_vector_batch FaissIndex.add_batch
    State.place State.push_at State.grow_levels
waiting-live = refl

abbrev Runnable : Task base → Type 0
Runnable =
    IsRunnable ℕ {Flat = base} {Hnsw = base} base rand binary binary memory hash listener server
      (session credentials) flat_segment tt

-- The segment that was closed.
abbrev closed : SegmentPtr base base
closed = flat_segment (record {
  seg_id = 100;
  index =
      FaissIndex.add_batch flat ((2, 7) ∷ [])
        (FaissIndex.add_batch flat ((1, 7) ∷ []) (FaissIndex.create flat));
})

abbrev waiting_segs : List (SegmentPtr base base)
waiting_segs = map (λ p. flat_segment (waiting.heap p)) waiting.update.inserted

waiting_segs_lem : waiting_segs ≡ closed ∷ []
unfolding lookup handle_request create_writer insert has_key ℕ_discrete member target set_shard init
    Operations.add FaissIndex.size FaissIndex.create Segment.add_vector_batch FaissIndex.add_batch
    State.place State.push_at State.grow_levels
waiting_segs_lem = refl

closed_fits : IsWritablePtr base base binary binary closed
unfolding FaissIndex.create FaissIndex.add_batch insert has_key lookup ℕ_discrete
closed_fits = (
  (
    omega arith,
    omega arith,
    (omega arith, (refl, (refl, tt)), (omega arith, omega arith, (omega arith, omega arith, tt))),
    (omega arith, (refl, (refl, tt)), (omega arith, omega arith, (omega arith, omega arith, tt))),
    (omega arith, tt, tt),
  ),
  omega arith,
)

waiting-Runnable : Runnable waiting
unfolding run_task lookup handle_request create_writer insert has_key ℕ_discrete member target
    set_shard init Operations.add FaissIndex.size FaissIndex.create Segment.add_vector_batch
    FaissIndex.add_batch State.place State.push_at State.grow_levels update_index
waiting-Runnable c =
    let (c', q, told, stored) =
      index_update_callback_lem memory hash memory-IsStorage credentials index binary binary
        (λ k v st. refl) listener server tt [] (closed ∷ []) shard ((104 ∷ []) ∷ []) c
        (closed_fits, tt) (refl, tt) tt (refl, tt) listed in
    (
      c',
      ap
            (λ segs.
              index_update_callback {Flat = base} {Hnsw = base} binary binary memory hash listener
                server (session credentials) tt [] segs index shard c)
            waiting_segs_lem
          ∙ q,
    )

queue-Runnable : (t : Task base) → Memᴰ t written.queue → Runnable t
queue-Runnable t m = elim (Memᴰ.cases_cons (subst (λ l. Memᴰ t l) waiting_lem m)) [
  | inl q ↦ subst Runnable (sym q) waiting-Runnable
  | inr n ↦ absurd (Memᴰ.not-nil n)
]

Reach-join_example :
    (c' : CallbackState memory listener) × (join {Flat = base} {Hnsw = base} base binary binary
        memory hash listener server
        (session credentials)
        flat_segment
        tt
        written.queue
        quiet
      ≡ answer (true, c'))
    × (Reached (record written { queue = []; done = written.done ++ written.queue; callback = c' })
        × ((i s : Text) (x : Index base)
            → lookup s (shards_of i written.writer.shards) ≡ some x
            → calls_of base i s (written.done ++ written.queue) ≡ x.updates))
unfolding handle_request
Reach-join_example =
    Reach-join ℕ {Flat = base} {Hnsw = base} base rand binary binary memory hash listener server
      (session credentials) flat_segment view items created quiet written tt started_lem
      written-Reached queue-Runnable

Reach-run_task_example :
    (x : Index base) × (lookup waiting.shard_id (shards_of waiting.index_id written.writer.shards)
      ≡ some x)
    × ((etcd : server.State) (c : CallbackState memory listener)
        → run_task {Flat = base} {Hnsw = base} base binary binary memory hash listener server
            (session credentials)
            flat_segment
            etcd
            waiting
            c
          ≡ index_update_callback {Flat = base} {Hnsw = base} binary binary memory hash listener
              server
              (session credentials)
              etcd
              waiting.update.erased
              (map (λ p. flat_segment (x.heap p)) waiting.update.inserted)
              waiting.index_id
              waiting.shard_id
              c)
Reach-run_task_example =
    Reach-run_task ℕ {Flat = base} {Hnsw = base} base rand binary binary memory hash listener server
      (session credentials) flat_segment created quiet written waiting written-Reached waiting-queue
      waiting-live
