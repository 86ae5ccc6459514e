-- ===== src/Writer/Callbacks.antt =====
-- The callbacks of the indexes as tasks of callback_runner, a pool of one thread, and the requests of
-- the writer (app/src/Writer.cpp). The handler and a task hold runner_lock throughout: each is a step.
pub mod Logged
pub mod Continuing
pub mod Ordering
pub mod Current
pub mod Joining
use vecodex.Prelude.{
  ℕ, ◌+◌, ◌≡◌, ◌≢◌, Bool, true, false, Option, none, some, List, [], ◌∷◌, ◌++◌, map, Order, Key,
  lookup, length, drop, if◌then◌else◌, ite, ◌&&◌,
}
use vecodex.BaseIndex.{IBaseIndex}
use vecodex.Binary.{Binary}
use vecodex.Segment.{Segment}
use vecodex.Segment.Files.{SegmentPtr}
use vecodex.Index.State.{Index, Update}
use vecodex.Coordinator.Handler.{shards_of}
use vecodex.EtcdClient.{Text, Server}
use vecodex.StorageClient.{S3, StorageClient}
use vecodex.Searcher.{Outcome, answer, and_then}
use vecodex.Writer.{
  EtcdView, WriteRequest, WriteStatus, WriterImpl, crash, update_indexes, process_write_request,
}
use vecodex.Writer.Indexes.{library}
use vecodex.Writer.Targeting.{target}
use vecodex.Writer.Publishing.{Searchers, CallbackState, index_update_callback}

-- A posted task. Its pointers keep the segments alive: `heap` is what they lead to by now. `is_live`
-- says that the writer still has the index that has called back.
pub record Task {IdType Vec Dist : Type 0} (B : IBaseIndex IdType Vec Dist) : Type 0 where
  pub index_id : Text
  pub shard_id : Text
  pub update : Update
  pub heap : ℕ → Segment B
  pub is_live : Bool

module _ {IdType Vec Dist : Type 0} (B : IBaseIndex IdType Vec Dist) ⦃k : Key IdType⦄ ⦃e : Key Text⦄
    (rand : ℕ → ℕ) where
  -- The calls of an index become tasks, oldest first.
  abbrev pub post_all : Text → Text → (ℕ → Segment B) → List Update → List (Task B)
  post_all i s heap [] = []
  post_all i s heap (u ∷ us) =
      record { index_id = i; shard_id = s; update = u; heap = heap; is_live = true }
      ∷ post_all i s heap us

  -- What the request has posted, between the states of the writer before and after it.
  unfoldable pub posted_for :
      {Time : Type 0} ⦃o : Order Time⦄
      → EtcdView Text Time
      → WriteRequest Text IdType Vec
      → WriterImpl (library Text B rand)
      → WriterImpl (library Text B rand)
      → List (Task B)
  posted_for view request w w' = elim (target (library Text B rand) [] view request w) [
    | none ↦ []
    | some (i, s) ↦ elim (lookup s (shards_of i w.shards)) [
      | none ↦ []
      | some x ↦ elim (lookup s (shards_of i w'.shards)) [
        | none ↦ []
        | some x' ↦ post_all i s x'.heap (drop (length x.updates) x'.updates)
      ]
    ]
  ]

  -- A task sees what the writer has made of its segments. When the shard is removed, the pool alone
  -- has the segments, and they stay as they are.
  unfoldable pub settle : WriterImpl (library Text B rand) → Task B → Task B
  settle w t =
      if t.is_live
      then elim (lookup t.shard_id (shards_of t.index_id w.shards)) [
        | none ↦ record t { is_live = false }
        | some x ↦ record t { heap = x.heap }
      ]
      else t

module _ {IdType Vec Dist : Type 0} (B : IBaseIndex IdType Vec Dist) ⦃k : Key IdType⦄ (rand : ℕ → ℕ)
    (S : S3) (N : Searchers) where
  -- `done` are the tasks that were run, oldest first; the code does not keep them.
  pub record WriterServer : Type 0 where
    pub writer : WriterImpl (library Text B rand)
    pub queue : List (Task B)
    pub done : List (Task B)
    pub callback : CallbackState S N

  -- The writer after its constructor.
  abbrev pub started : WriterImpl (library Text B rand) → CallbackState S N → WriterServer
  started w c = record { writer = w; queue = []; done = []; callback = c }

module _ {IdType Vec Dist : Type 0} (B : IBaseIndex IdType Vec Dist) ⦃k : Key IdType⦄ ⦃e : Key Text⦄
    (rand : ℕ → ℕ) (S : S3) (N : Searchers) where
  -- A request, and what its callbacks post.
  unfoldable pub handle_request :
      {Time : Type 0} ⦃o : Order Time⦄
      → EtcdView Text Time
      → WriteRequest Text IdType Vec
      → WriterServer B rand S N
      → WriteStatus × WriterServer B rand S N
  unfolding posted_for settle process_write_request
  handle_request view request y =
      let w = record y.writer { requests_count = y.writer.requests_count + 1 } in
      let updated = update_indexes (library Text B rand) view w.indexes_create_args w in
      let r = process_write_request (library Text B rand) [] view request y.writer in
      (
        r.0,
        record y {
          writer = r.1;
          queue =
              map (settle B rand r.1) y.queue
              ++ (if updated.0 then posted_for B rand view request updated.1 r.1 else []);
          done = map (settle B rand r.1) y.done;
        },
      )

module _ {IdType Vec Dist : Type 0} {Flat Hnsw : IBaseIndex IdType Vec Dist}
    (B : IBaseIndex IdType Vec Dist) (flat : Binary Flat.Base) (hnsw : Binary Hnsw.Base) (S : S3)
    (hash : Text → ℕ) ⦃e : Key Text⦄ (N : Searchers) (E : Server) (client : StorageClient)
    (pointer : Segment B → SegmentPtr Flat Hnsw) where
  -- `pointer` says which kind of segment the indexes have.
  unfoldable pub run_task :
      E.State → Task B → CallbackState S N → Outcome (Bool × CallbackState S N)
  unfolding index_update_callback
  run_task etcd t c =
      index_update_callback flat hnsw S hash N E client etcd t.update.erased
        (map (λ p. pointer (t.heap p)) t.update.inserted) t.index_id t.shard_id c

  -- callback_runner.join() in the destructor.
  unfoldable pub join :
      E.State → List (Task B) → CallbackState S N → Outcome (Bool × CallbackState S N)
  unfolding run_task
  join etcd [] c = answer (true, c)
  join etcd (t ∷ ts) c =
      and_then (run_task etcd t c)
        (λ r. let rest = join etcd ts r.1 in if r.0 then rest else answer (false, r.1))

module _ (Time : Type 0) {IdType Vec Dist : Type 0} {Flat Hnsw : IBaseIndex IdType Vec Dist}
    (B : IBaseIndex IdType Vec Dist) ⦃k : Key IdType⦄ ⦃e : Key Text⦄ ⦃o : Order Time⦄ (rand : ℕ → ℕ)
    (flat : Binary Flat.Base) (hnsw : Binary Hnsw.Base) (S : S3) (hash : Text → ℕ) (N : Searchers)
    (E : Server) (client : StorageClient) (pointer : Segment B → SegmentPtr Flat Hnsw) where
  -- A request that does not end the process, or a turn of the pool's thread.
  pub data Step (y : WriterServer B rand S N) : WriterServer B rand S N → Type 0 where
    handles :
        (view : EtcdView Text Time) (request : WriteRequest Text IdType Vec)
        → (handle_request B rand S N view request y).0 ≢ crash
        → Step y (handle_request B rand S N view request y).1
    runs :
        (etcd : E.State) (t : Task B) (ts : List (Task B)) (c : CallbackState S N)
        → y.queue ≡ t ∷ ts
        → run_task B flat hnsw S hash N E client pointer etcd t y.callback ≡ answer (true, c)
        → Step y (record y { queue = ts; done = y.done ++ t ∷ []; callback = c })

  pub data Reach (y : WriterServer B rand S N) : WriterServer B rand S N → Type 0 where
    begin : Reach y y
    later : {x z : WriterServer B rand S N} → Reach y x → Step x z → Reach y z
