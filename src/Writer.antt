-- ===== src/Writer.antt =====
-- WriterImpl (app/src/Writer.cpp, app/include/Writer.h): the indexes of the shards that etcd lists,
-- and the handler of a write request.
pub mod Choosing
pub mod Updating
pub mod Writing
pub mod Keeping
pub mod Following
pub mod Targeting
pub mod Running
pub mod Indexes
pub mod Publishing
pub mod Callbacks
use vecodex.Prelude.{
  ℕ, ◌+◌, ◌-◌, ◌%◌, Bool, true, false, Option, none, some, List, [], ◌∷◌, ◌++◌, Order, Key, lookup,
  has_key, insert, remove, member, if◌then◌else◌, ◌>>=◌,
}
use vecodex.FaissIndex.{size_mod}
use vecodex.Coordinator.Handler.{shards_of, set_shard}

-- What the writer uses of an index (index/include/IIndex.h, index/baselines/IndexFactory.h); `none`
-- and `false` are exceptions.
pub record IndexOps (Name Config DocId Vec : Type 0) : Type 1 where
  pub Ix : Type 0
  pub create : Config → Option Ix
  pub set_update_callback : Name → Name → Ix → Ix
  pub add : DocId → Vec → Ix → Bool × Ix
  pub erase : DocId → Ix → Bool × Ix

-- What etcd answers while a request is handled; `none` is an exception.
pub record EtcdView (Name Time : Type 0) : Type 0 where
  pub list_shard_ids : Name → Option (List Name)
  pub average_response_time : Name → Name → Option Time

-- The attributes `index-id` and `delete`, and the document.
pub record WriteRequest (Name DocId Vec : Type 0) : Type 0 where
  pub index_id : Option Name
  pub delete : Bool
  pub id : DocId
  pub vector_data : Vec

-- `crash` is a call through a null pointer.
pub data WriteStatus : Type 0 where
  ok missing_index_id wrong_index_id exception crash : WriteStatus

pub record WriterImpl {Name Config DocId Vec : Type 0} (O : IndexOps Name Config DocId Vec)
    : Type 0 where
  pub indexes_create_args : List (Name × Config)
  pub shards : List (Name × List (Name × O.Ix))
  -- The calls of createBucket, whose result is ignored.
  pub buckets : List Name
  pub requests_count : ℕ
  -- The gauge of every shard.
  pub vectors_count : List (Name × List (Name × ℕ))

module _ {Name Ix : Type 0} ⦃e : Key Name⦄ where
  -- The loops over `to_del`.
  unfoldable pub keep_listed : List Name → List (Name × Ix) → List (Name × Ix)
  keep_listed ids [] = []
  keep_listed ids ((s, x) ∷ m) =
      let rest = keep_listed ids m in if member s ids then (s, x) ∷ rest else rest

module _ {Name Time : Type 0} ⦃o : Order Time⦄ where
  -- The body of the loop of chooseShard.
  unfoldable pub better : Name → Time → Option (Name × Time) → Option (Name × Time)
  better s t none = some (s, t)
  better s t (some (s', t')) = if o.less t t' then some (s, t) else some (s', t')

  unfoldable pub choose_shard :
      {Ix : Type 0}
      → EtcdView Name Time
      → Name
      → List (Name × Ix)
      → Option (Name × Time)
      → Option (Option (Name × Time))
  unfolding better
  choose_shard view i [] best = some best
  choose_shard view i ((s, x) ∷ m) best = do
    t ← view.average_response_time i s
    choose_shard view i m (better s t best)

-- `shard_id`, which is empty before a shard is found.
abbrev pub name_of : {Name Time : Type 0} → Name → Option (Name × Time) → Name
name_of empty none = empty
name_of empty (some (s, t)) = s

module _ {Name Config DocId Vec : Type 0} (O : IndexOps Name Config DocId Vec) ⦃e : Key Name⦄ where
  -- The loops over `to_add`; `false` is an exception of CreateIndex.
  unfoldable pub add_missing :
      Name → Config → List Name → List (Name × O.Ix) → Bool × List (Name × O.Ix)
  add_missing i config [] m = (true, m)
  add_missing i config (s ∷ ss) m = elim (has_key s m) [
    | true ↦ add_missing i config ss m
    | false ↦ elim (O.create config) [
      | none ↦ (false, m)
      | some x ↦ add_missing i config ss (insert s (O.set_update_callback i s x) m)
    ]
  ]

  -- The body of the loop of updateIndexesState, once etcd has listed the shards.
  unfoldable pub update_listed : Name → Config → List Name → WriterImpl O → Bool × WriterImpl O
  unfolding add_missing keep_listed
  update_listed i config [] w = (true, record w { shards = remove i w.shards })
  update_listed i config (s ∷ ss) w =
      let (done, m) = add_missing i config (s ∷ ss) (keep_listed (s ∷ ss) (shards_of i w.shards)) in
      (
        done,
        record w {
          shards = insert i m w.shards;
          buckets = (if has_key i w.shards then w.buckets else w.buckets ++ i ∷ []);
        },
      )

  unfoldable pub update_indexes :
      {Time : Type 0}
      → EtcdView Name Time
      → List (Name × Config)
      → WriterImpl O
      → Bool × WriterImpl O
  unfolding update_listed
  update_indexes view [] w = (true, w)
  update_indexes view ((i, config) ∷ args) w = elim (view.list_shard_ids i) [
    | none ↦ (false, w)
    | some ids ↦
        let (done, w') = update_listed i config ids w in
        let rest = update_indexes view args w' in if done then rest else (false, w')
  ]

  -- The loop of the constructor over the configurations; the second of two with one name stays.
  unfoldable pub create_args : List (Name × Config) → List (Name × Config) → List (Name × Config)
  create_args [] args = args
  create_args ((i, config) ∷ items) args = create_args items (insert i config args)

  -- The constructor; `false` is an exception. That the storage refuses the login is only reported.
  unfoldable pub create_writer :
      {Time : Type 0} → EtcdView Name Time → List (Name × Config) → Bool × WriterImpl O
  unfolding update_indexes create_args
  create_writer view items =
      let args = create_args items [] in
      update_indexes view args (record {
        indexes_create_args = args;
        shards = [];
        buckets = [];
        requests_count = 0;
        vectors_count = [];
      })

  -- The gauge `vectors_count`, 0 if it was never set.
  unfoldable pub vectors_of : Name → Name → WriterImpl O → ℕ
  vectors_of i s w = elim (lookup s (shards_of i w.vectors_count)) [ none ↦ 0 | some n ↦ n ]

  unfoldable pub add_vector :
      Name → Name → WriteRequest Name DocId Vec → WriterImpl O → WriteStatus × WriterImpl O
  add_vector i s request w = elim (lookup s (shards_of i w.shards)) [
    | none ↦ (crash, w)
    | some x ↦
        let (done, x') = O.add request.id request.vector_data x in
        let counts = set_shard i s (vectors_of i s w + 1) w.vectors_count in
        (
          (if done then ok else exception),
          record w {
            shards = set_shard i s x' w.shards;
            vectors_count = (if done then counts else w.vectors_count);
          },
        )
  ]

  -- `shards[index_id][index_id]->erase(1, &vec_id)`, and the gauge of the chosen shard `s`.
  unfoldable pub erase_vector :
      Name → Name → WriteRequest Name DocId Vec → WriterImpl O → WriteStatus × WriterImpl O
  unfolding vectors_of
  erase_vector i s request w = elim (lookup i (shards_of i w.shards)) [
    | none ↦ (crash, w)
    | some x ↦
        let (done, x') = O.erase request.id x in
        let n = (vectors_of i s w + size_mod - 1) % size_mod in
        (
          (if done then ok else exception),
          record w {
            shards = set_shard i i x' w.shards;
            vectors_count = (if done then set_shard i s n w.vectors_count else w.vectors_count);
          },
        )
  ]

  -- ProcessWriteRequest after updateIndexesState.
  unfoldable pub answer_write :
      {Time : Type 0} ⦃o : Order Time⦄
      → Name
      → EtcdView Name Time
      → WriteRequest Name DocId Vec
      → WriterImpl O
      → WriteStatus × WriterImpl O
  unfolding choose_shard add_vector erase_vector
  answer_write empty view request w = elim request.index_id [
    | none ↦ (missing_index_id, w)
    | some i ↦
        if has_key i w.shards
        then elim (choose_shard view i (shards_of i w.shards) none) [
          | none ↦ (exception, w)
          | some best ↦
              let s = name_of empty best in
              if request.delete then erase_vector i s request w else add_vector i s request w
        ]
        else (wrong_index_id, w)
  ]

  -- The handler. `empty` is the empty string.
  unfoldable pub process_write_request :
      {Time : Type 0} ⦃o : Order Time⦄
      → Name
      → EtcdView Name Time
      → WriteRequest Name DocId Vec
      → WriterImpl O
      → WriteStatus × WriterImpl O
  unfolding update_indexes answer_write
  process_write_request empty view request w =
      let (done, w') =
        update_indexes view w.indexes_create_args
          (record w { requests_count = w.requests_count + 1 }) in
      let answer = answer_write empty view request w' in if done then answer else (exception, w')
