-- ===== src/Searcher.antt =====
-- SearcherImpl (app/src/Searcher.cpp, app/include/Searcher.h): the shards that a searcher serves, its
-- registration in etcd, and the handlers of searches and updates.
pub mod Answering
pub mod Updating
pub mod Registering
pub mod Fetching
pub mod Serving
pub mod Creating
pub mod Discovering
pub mod Indexes
pub mod Finding
use vecodex.Prelude.{
  ℕ, ◌+◌, Bool, true, false, ◌≡◌, ap, Option, none, some, List, [], ◌∷◌, ◌++◌, map, Key, lookup,
  ◌>>=◌,
}
use vecodex.Coordinator.Handler.{SearchRequest, shards_of, set_shard}

-- What the searcher uses of an index (index/include/IIndex.h, index/baselines/IndexFactory.h); `none`
-- is an exception. What eraseSegment returns is not read.
pub record SearcherOps (Config DocId Vec : Type 0) : Type 1 where
  pub Ix : Type 0
  pub Seg : Type 0
  pub create : Config → Option Ix
  pub search : Vec → ℕ → Ix → Option (List DocId)
  pub push_segment : Seg → Ix → Ix
  pub erase_segment : ℕ → Ix → Ix

pub record UpdateRequest (Name : Type 0) : Type 0 where
  pub index_id : Name
  pub shard_id : Name
  pub added : List ℕ
  pub deleted : List ℕ

-- `crash` is a call through a null pointer.
pub data Outcome {ℓ} (A : Type ℓ) : Type ℓ where
  answer : A → Outcome A
  exception crash : Outcome A

abbrev pub as_outcome {ℓ} : {A : Type ℓ} → Option A → Outcome A
as_outcome none = exception
as_outcome (some a) = answer a

abbrev pub and_then {ℓ} : {A B : Type ℓ} → Outcome A → (A → Outcome B) → Outcome B
and_then (answer a) f = f a
and_then exception f = exception
and_then crash f = crash

abbrev or_else : {A : Type 0} → A → Outcome A → A
or_else a (answer b) = b
or_else a exception = a
or_else a crash = a

pub answer_injective : {A : Type 0} (a b : A) → answer a ≡ answer b → a ≡ b
answer_injective a b h = ap (or_else a) h

pub record SearcherImpl {Config DocId Vec : Type 0} (Name : Type 0)
    (O : SearcherOps Config DocId Vec) : Type 0 where
  pub shards : List (Name × List (Name × O.Ix))
  pub requests_count : ℕ
  pub updates_count : List (Name × List (Name × ℕ))

abbrev pub count_of :
    {Name : Type 0} ⦃e : Key Name⦄ → Name → Name → List (Name × List (Name × ℕ)) → ℕ
count_of i s counts = elim (lookup s (shards_of i counts)) [ none ↦ 0 | some n ↦ n ]

-- `shards_configs`: the index, the shard and the configuration of its index.
module _ {Config DocId Vec Name : Type 0} (O : SearcherOps Config DocId Vec) ⦃e : Key Name⦄ where
  -- The loop of the constructor; `none` is an exception of CreateIndex.
  unfoldable pub create_shards :
      List (Name × Name × Config)
      → List (Name × List (Name × O.Ix))
      → Option (List (Name × List (Name × O.Ix)))
  unfolding set_shard
  create_shards [] shards = some shards
  create_shards ((i, s, config) ∷ configs) shards = do
    x ← O.create config
    create_shards configs (set_shard i s x shards)

  -- The loop over `shards[index_id]`.
  unfoldable pub search_all : Vec → ℕ → List (Name × O.Ix) → Option (List DocId)
  search_all q k [] = some []
  search_all q k ((s, x) ∷ shards) = do
    shard_result ← O.search q k x
    result ← search_all q k shards
    some (shard_result ++ result)

  unfoldable pub process_search_request :
      SearchRequest Name Vec → SearcherImpl Name O → Outcome (List DocId) × SearcherImpl Name O
  unfolding search_all
  process_search_request request w =
      let w' : SearcherImpl Name O = record w { requests_count = w.requests_count + 1 } in
      let shards = shards_of request.index_id w.shards in
      elim request.shard_id [
        | some s ↦ elim (lookup s shards) [
          | none ↦ (crash, w')
          | some x ↦ (as_outcome (O.search request.vector_data request.k x), w')
        ]
        | none ↦ (as_outcome (search_all request.vector_data request.k shards), w')
      ]

  -- The loop over `added`. `fetch` stands for the storage with DeserealizeSegment; `none` is a segment
  -- that it does not give, which the source uses all the same.
  unfoldable pub push_added :
      (Name → ℕ → Option O.Seg)
      → Name
      → Name
      → List ℕ
      → List (Name × List (Name × O.Ix))
      → Outcome (List (Name × List (Name × O.Ix)))
  push_added fetch i s [] shards = answer shards
  push_added fetch i s (id ∷ ids) shards = elim (fetch i id) [
    | none ↦ crash
    | some segment ↦ elim (lookup s (shards_of i shards)) [
      | none ↦ crash
      | some x ↦ push_added fetch i s ids (set_shard i s (O.push_segment segment x) shards)
    ]
  ]

  unfoldable pub erase_deleted :
      Name
      → Name
      → List ℕ
      → List (Name × List (Name × O.Ix))
      → Outcome (List (Name × List (Name × O.Ix)))
  erase_deleted i s [] shards = answer shards
  erase_deleted i s (id ∷ ids) shards = elim (lookup s (shards_of i shards)) [
    | none ↦ crash
    | some x ↦ erase_deleted i s ids (set_shard i s (O.erase_segment id x) shards)
  ]

  -- The handler; a crash leaves no state.
  unfoldable pub process_update_request :
      (Name → ℕ → Option O.Seg)
      → UpdateRequest Name
      → SearcherImpl Name O
      → Outcome (SearcherImpl Name O)
  unfolding push_added erase_deleted
  process_update_request fetch request w =
      let i = request.index_id in
      let s = request.shard_id in
      let counts = set_shard i s (count_of i s w.updates_count + 1) w.updates_count in
      and_then (push_added fetch i s request.added w.shards) (λ pushed.
        and_then (erase_deleted i s request.deleted pushed)
          (λ erased. answer (record w { shards = erased; updates_count = counts })))

  -- The shards, as Init and GracefulShutdown go through them.
  unfoldable pub registered : List (Name × List (Name × O.Ix)) → List (Name × Name)
  registered [] = []
  registered ((i, shards) ∷ rest) = map (λ p. (i, p.0)) shards ++ registered rest
