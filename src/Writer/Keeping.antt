-- ===== src/Writer/Keeping.antt =====
-- What the operations of the writer keep of every index.
use mathlib.Core.Option.{some-injective}
use vecodex.Prelude.{
  ◌≡◌, ◌∙◌, sym, subst, Bool, false, some, none≢some, List, [], ◌∷◌, Key, All, lookup, has_key,
  insert, remove, member, if_pos, if_neg, if_intro, Bool-cases, Option-cases, inl, inr,
}
use vecodex.Coordinator.Handler.{shards_of, set_shard}
use vecodex.Writer.{
  IndexOps, EtcdView, WriterImpl, keep_listed, add_missing, update_listed, update_indexes,
}

module _ {K V : Type 0} ⦃e : Key K⦄ (P : V → Type 0) where
  -- Every value of the map has the property.
  abbrev pub AllValues : List (K × V) → Type 0
  AllValues m = All (λ p. P p.1) m

  pub lookup-AllValues :
      (k : K) (v : V) (m : List (K × V)) → AllValues m → lookup k m ≡ some v → P v
  unfolding lookup
  lookup-AllValues k v [] h q = absurd (none≢some q)
  lookup-AllValues k v ((j, w) ∷ m) h q = elim (e.dec j k) [
    | yes p ↦ subst P (some-injective _ _ (sym (if_pos (e.dec j k) p _ _) ∙ q)) h.0
    | no n ↦ lookup-AllValues k v m h.1 (sym (if_neg (e.dec j k) n _ _) ∙ q)
  ]

  pub insert-AllValues :
      (k : K) (v : V) (m : List (K × V)) → P v → AllValues m → AllValues (insert k v m)
  unfolding insert
  insert-AllValues k v [] h a = (h, tt)
  insert-AllValues k v ((j, w) ∷ m) h a = elim (e.dec j k) [
    | yes p ↦ subst (λ l. AllValues l) (sym (if_pos (e.dec j k) p _ _)) (h, a.1)
    | no n ↦
        subst (λ l. AllValues l) (sym (if_neg (e.dec j k) n _ _))
          (a.0, insert-AllValues k v m h a.1)
  ]

  remove-AllValues : (k : K) (m : List (K × V)) → AllValues m → AllValues (remove k m)
  unfolding remove
  remove-AllValues k [] a = tt
  remove-AllValues k ((j, w) ∷ m) a = elim (e.dec j k) [
    | yes p ↦ subst (λ l. AllValues l) (sym (if_pos (e.dec j k) p _ _)) (remove-AllValues k m a.1)
    | no n ↦
        subst (λ l. AllValues l) (sym (if_neg (e.dec j k) n _ _)) (a.0, remove-AllValues k m a.1)
  ]

  keep_listed-AllValues :
      (ids : List K) (m : List (K × V)) → AllValues m → AllValues (keep_listed ids m)
  unfolding keep_listed
  keep_listed-AllValues ids [] a = tt
  keep_listed-AllValues ids ((s, x) ∷ m) a =
      let rest = keep_listed-AllValues ids m a.1 in
      if_intro (λ l. AllValues l) (member s ids) ((s, x) ∷ keep_listed ids m) (keep_listed ids m)
        (λ q. (a.0, rest)) (λ q. rest)

module _ {K V : Type 0} ⦃e : Key K⦄ (P : V → Type 0) where
  abbrev pub AllShards : List (K × List (K × V)) → Type 0
  AllShards m = AllValues (AllValues P) m

  pub shards_of-AllShards :
      (i : K) (m : List (K × List (K × V))) → AllShards m → AllValues P (shards_of i m)
  unfolding shards_of
  shards_of-AllShards i m a = elim (Option-cases (lookup i m)) [
    | inl q ↦ rw (shards_of, q) tt
    | inr (l, q) ↦ rw (shards_of, q) (lookup-AllValues (AllValues P) i l m a q)
  ]

  pub set_shard-AllShards :
      (i s : K) (v : V) (m : List (K × List (K × V)))
      → P v
      → AllShards m
      → AllShards (set_shard i s v m)
  unfolding set_shard
  set_shard-AllShards i s v m h a =
      insert-AllValues (AllValues P) i (insert s v (shards_of i m)) m
        (insert-AllValues P s v (shards_of i m) h (shards_of-AllShards i m a)) a

-- A new index has `P`, if the configurations are valid.
pub record Creates {Name Config DocId Vec : Type 0} (O : IndexOps Name Config DocId Vec)
    (Valid : Config → Type 0) (P : O.Ix → Type 0) : Type 0 where
  pub create-keeps : (config : Config) (x : O.Ix) → Valid config → O.create config ≡ some x → P x
  pub callback-keeps : (i s : Name) (x : O.Ix) → P x → P (O.set_update_callback i s x)

-- The operations on an index keep `P` as well.
pub record Keeps {Name Config DocId Vec : Type 0} (O : IndexOps Name Config DocId Vec)
    (Valid : Config → Type 0) (P : O.Ix → Type 0) : Type 0 where
  pub creates : Creates O Valid P
  pub add-keeps : (id : DocId) (v : Vec) (x : O.Ix) → P x → P (O.add id v x).1

module _ {Name Config DocId Vec : Type 0} (O : IndexOps Name Config DocId Vec) ⦃e : Key Name⦄
    (Valid : Config → Type 0) (P : O.Ix → Type 0) (K : Creates O Valid P) where
  -- Every index of the writer has the property, and every configuration is valid.
  abbrev pub IsKept : WriterImpl O → Type 0
  IsKept w = AllShards P w.shards × AllValues Valid w.indexes_create_args

  add_missing-keeps :
      (i : Name) (config : Config) (ss : List Name) (m : List (Name × O.Ix))
      → Valid config
      → AllValues P m
      → AllValues P (add_missing O i config ss m).1
  unfolding add_missing
  add_missing-keeps i config [] m h a = a
  add_missing-keeps i config (s ∷ ss) m h a = elim (Bool-cases (has_key s m)) [
    | inl q ↦ rw (add_missing, q) (add_missing-keeps i config ss m h a)
    | inr q ↦ elim (Option-cases (O.create config)) [
      | inl r ↦ rw (add_missing, q, r) a
      | inr (x, r) ↦
          rw (add_missing, q, r)
            (add_missing-keeps i config ss (insert s (O.set_update_callback i s x) m) h (
              insert-AllValues P s (O.set_update_callback i s x) m
                (K.callback-keeps i s x (K.create-keeps config x h r)) a))
    ]
  ]

  update_listed-keeps :
      (i : Name) (config : Config) (ids : List Name) (w : WriterImpl O)
      → Valid config
      → IsKept w
      → IsKept (update_listed O i config ids w).1
  unfolding update_listed
  update_listed-keeps i config [] w h a = (remove-AllValues (AllValues P) i w.shards a.0, a.1)
  update_listed-keeps i config (s ∷ ss) w h a =
      let old = keep_listed (s ∷ ss) (shards_of i w.shards) in
      let kept =
        keep_listed-AllValues P (s ∷ ss) (shards_of i w.shards)
          (shards_of-AllShards P i w.shards a.0) in
      (
        insert-AllValues (AllValues P) i (add_missing O i config (s ∷ ss) old).1 w.shards
            (add_missing-keeps i config (s ∷ ss) old h kept) a.0,
        a.1,
      )

  pub update_indexes-keeps :
      {Time : Type 0} (view : EtcdView Name Time) (args : List (Name × Config)) (w : WriterImpl O)
      → AllValues Valid args
      → IsKept w
      → IsKept (update_indexes O view args w).1
  unfolding update_indexes
  update_indexes-keeps view [] w h a = a
  update_indexes-keeps view ((i, config) ∷ args) w h a =
      elim (Option-cases (view.list_shard_ids i)) [
        | inl q ↦ rw (update_indexes, q) a
        | inr (ids, q) ↦
            let first = update_listed O i config ids w in
            let kept = update_listed-keeps i config ids w h.0 a in
            rw (update_indexes, q)
              (if_intro (λ (r : Bool × WriterImpl O). IsKept r.1) first.0
                (update_indexes O view args first.1) (false, first.1)
                (λ t. update_indexes-keeps view args first.1 h.1 kept) (λ t. kept))
      ]
