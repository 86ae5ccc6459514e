-- ===== src/Writer/Indexes.antt =====
-- The writer over the indexes of the library: its operations on an index are those of
-- index/include/Index.h.
use mathlib.Core.Option.{some-injective}
use vecodex.Prelude.{
  ℕ, subst, ◌<◌, ◌+◌, ◌≡◌, ap, ◌∙◌, Bool, true, false, some, List, [], ◌∷◌, Order, Key, lookup,
  if◌then◌else◌,
}
use vecodex.BaseIndex.{IBaseIndex}
use vecodex.Index.State.{Index, Status, finished, empty_batch, out_of_fuel, init}
use vecodex.Index.Operations
use vecodex.Index.Filling.{IsReady}
use vecodex.Index.Adding.{add_finished}
use vecodex.Coordinator.Handler.{set_shard}
use vecodex.Writer.{
  IndexOps, EtcdView, WriteRequest, WriterImpl, ok, exception, vectors_of, process_write_request,
  create_writer,
}
use vecodex.FaissIndex.{size_mod}
use vecodex.Index.History.{IsStable, IsStable-add, IsStable-init}
use vecodex.Writer.Keeping.{
  AllValues, lookup-AllValues, shards_of-AllShards, Keeps, IsKept, update_indexes-keeps,
}
use vecodex.Writer.Running.{run_writes, AllAdd, run_writes-create_writer}
use vecodex.Writer.Writing.{Reaches, process_write_request-adds}

-- A configuration that CreateIndex accepts: the threshold and whether to merge.
pub record IndexConfig : Type 0 where
  pub threshold : ℕ
  pub enable_merge : Bool

abbrev pub is_finished : Status → Bool
is_finished finished = true
is_finished empty_batch = false
is_finished out_of_fuel = false

module _ {IdType Vec Dist : Type 0} (Name : Type 0) (B : IBaseIndex IdType Vec Dist)
    ⦃e : Key IdType⦄ (rand : ℕ → ℕ) where
  abbrev pub library : IndexOps Name IndexConfig IdType Vec
  library = record {
    Ix = Index B;
    create = λ config. some (init B rand config.threshold config.enable_merge);
    set_update_callback = λ i s x. Operations.set_update_callback B rand x;
    add = λ id v x. (
      is_finished (Operations.add B rand ((id, v) ∷ []) x).0,
      (Operations.add B rand ((id, v) ∷ []) x).1,
    );
    erase = λ id x. (true, Operations.erase B rand (id ∷ []) x);
  }

-- A threshold that leaves room for a vector.
abbrev pub IsValidConfig : IndexConfig → Type 0
IsValidConfig config = (0 < config.threshold) × (config.threshold < size_mod)

module _ {IdType Vec Dist : Type 0} (Name : Type 0) (B : IBaseIndex IdType Vec Dist)
    ⦃e : Key IdType⦄ (rand : ℕ → ℕ) where
  pub library-Keeps : Keeps (library Name B rand) IsValidConfig (IsStable B rand)
  library-Keeps = record {
    creates = record {
      create-keeps = λ config x h q.
          subst (IsStable B rand) (some-injective _ _ q)
            (IsStable-init B rand config.threshold config.enable_merge h.0 h.1);
      callback-keeps = λ i s x h. (
        record {
          allocated = h.0.allocated;
          in_levels = h.0.in_levels;
          in_segments = h.0.in_segments;
        },
        record {
          allocated = h.1.allocated;
          room = h.1.room;
          bounded = h.1.bounded;
          sound = h.1.sound;
        },
      );
    };
    add-keeps = λ id v x h. IsStable-add B rand ((id, v) ∷ []) x h;
  }

module _ {Name IdType Vec Dist Time : Type 0} (B : IBaseIndex IdType Vec Dist) ⦃e : Key IdType⦄
    ⦃n : Key Name⦄ ⦃o : Order Time⦄ (rand : ℕ → ℕ) (empty : Name) (view : EtcdView Name Time)
    (request : WriteRequest Name IdType Vec) (i : Name) (time : Name → Time) where
  -- If every index of the writer's shards is sound and has room in its last segment, a document that
  -- is not to be deleted is added without an exception: the handler answers OK, and exactly one shard
  -- has what Index::add makes of its index.
  process_write_request_ok :
      (w w' : WriterImpl (library Name B rand)) (s₀ : Name) (x₀ : Index B)
      (m : List (Name × Index B))
      → Reaches (library Name B rand) empty view request i time w w' s₀ x₀ m
      → request.delete ≡ false
      → ((s : Name) (x : Index B) → lookup s ((s₀, x₀) ∷ m) ≡ some x → IsReady B rand x)
      → (s : Name) × (x : Index B) × (lookup s ((s₀, x₀) ∷ m) ≡ some x)
        × (process_write_request (library Name B rand) empty view request w ≡ (
          ok,
          record w' {
            shards =
                set_shard i s
                  (Operations.add B rand ((request.id, request.vector_data) ∷ []) x).1
                  w'.shards;
            vectors_count =
                set_shard i s (vectors_of (library Name B rand) i s w' + 1) w'.vectors_count;
          },
        ))
  process_write_request_ok w w' s₀ x₀ m r d ready =
      let (s, x, l, a, p) =
        process_write_request-adds (library Name B rand) empty view request i time w w' s₀ x₀ m r
          d in
      let added = Operations.add B rand ((request.id, request.vector_data) ∷ []) x in
      let f =
        ap is_finished
          (add_finished B rand ((request.id, request.vector_data) ∷ []) x (ready s x l)) in
      (
        s,
        x,
        l,
        p
            ∙ ap
                (λ b. (
                  (if b then ok else exception),
                  record w' {
                    shards = set_shard i s added.1 w'.shards;
                    vectors_count =
                        (if b
                          then set_shard i s (vectors_of (library Name B rand) i s w' + 1)
                              w'.vectors_count
                          else w'.vectors_count);
                  },
                ))
                f,
      )

  -- A writer is constructed with thresholds that leave room for a vector, and handles any requests
  -- that add documents, whatever etcd answers to each. A further such request that gets as far as a
  -- shard then adds its document without an exception: the handler answers OK, and exactly one shard
  -- has what Index::add makes of its index.
  pub process_write_request-run_writes :
      (first : EtcdView Name Time) (items : List (Name × IndexConfig))
      (requests : List (EtcdView Name Time × WriteRequest Name IdType Vec))
      (w' : WriterImpl (library Name B rand)) (s₀ : Name) (x₀ : Index B) (m : List (Name × Index B))
      → AllValues IsValidConfig items
      → AllAdd (library Name B rand) empty requests
      → Reaches
          (library Name B rand)
          empty
          view
          request
          i
          time
          (run_writes
            (library Name B rand)
            empty
            requests
            (create_writer (library Name B rand) first items).1)
          w'
          s₀
          x₀
          m
      → request.delete ≡ false
      → (s : Name) × (x : Index B) × (lookup s ((s₀, x₀) ∷ m) ≡ some x)
        × (process_write_request (library Name B rand) empty view request (
              run_writes
                (library Name B rand)
                empty
                requests
                (create_writer (library Name B rand) first items).1)
            ≡ (
              ok,
              record w' {
                shards =
                    set_shard i s
                      (Operations.add B rand ((request.id, request.vector_data) ∷ []) x).1
                      w'.shards;
                vectors_count =
                    set_shard i s (vectors_of (library Name B rand) i s w' + 1) w'.vectors_count;
              },
            ))
  process_write_request-run_writes first items requests w' s₀ x₀ m h a r d =
      let O = library Name B rand in
      let P = IsStable B rand in
      let K = library-Keeps Name B rand in
      let w = run_writes O empty requests (create_writer O first items).1 in
      let kept = run_writes-create_writer O IsValidConfig P K empty first items requests h a in
      let updated =
        subst (λ u. IsKept O IsValidConfig P K.creates u) (ap (λ u. u.1) r.updates)
          (update_indexes-keeps O IsValidConfig P K.creates view w.indexes_create_args
            (record w { requests_count = w.requests_count + 1 }) kept.1 kept) in
      let shards =
        subst (λ l. AllValues P l) r.has_shards (shards_of-AllShards P i w'.shards updated.0) in
      process_write_request_ok w w' s₀ x₀ m r d
        (λ s x l. (lookup-AllValues P s x ((s₀, x₀) ∷ m) shards l).1)
