-- ===== src/Coordinator/Handler/Updating.antt =====
-- UpdateSearchersState: what the coordinator knows of the searchers after it has asked etcd.
use mathlib.Core.Option.{some-injective}
use vecodex.Prelude.{
  ◌≡◌, refl, ap, ◌∙◌, sym, Bool, true, false, Option, none, some, List, [], ◌∷◌, Key, lookup,
  has_key, insert, lookup-insert, lookup-insert_self, member, ite, if_pos, if_neg, if◌then◌else◌,
  arith, Option-cases, inl, inr,
}
use vecodex.Coordinator.Stats.{new_stats}
use vecodex.Coordinator.Handler.{
  Etcd, SearchRequest, CoordinatorImpl, shards_of, set_shard, update_with_index_shard_info,
  update_shards, update_searchers_state,
}

pub lookup-set_shard :
    {V Name : Type 0} ⦃e : Key Name⦄ (i s t : Name) (v : V) (m : List (Name × List (Name × V)))
    → lookup t (shards_of i (set_shard i s v m))
      ≡ ite (e.dec s t) (some v) (lookup t (shards_of i m))
unfolding shards_of set_shard
lookup-set_shard i s t v m =
    rw (shards_of, lookup-insert_self i (insert s v (shards_of i m)) m)
      (lookup-insert s t v (shards_of i m))

if_same :
    {A : Type 0} (b : Bool) (a : A)
    → ◌≡◌ {A = Bool × A} (b, a) (if b then (true, a) else (false, a))
if_same true a = refl
if_same false a = refl

module _ {Name : Type 0} (E : Etcd Name) ⦃e : Key Name⦄ where
  update_with_index_shard_info_lem :
      (i s : Name) (hosts : Name → List Name) (c : CoordinatorImpl E)
      → ((t : Name) → E.list_searcher_hosts c.etcd i t ≡ some (hosts t))
      → (c' : CoordinatorImpl E) × (update_with_index_shard_info E i s c ≡ (true, c'))
        × (c'.etcd ≡ c.etcd)
        × (c'.asked ≡ c.asked)
        × ((t : Name)
            → lookup t (shards_of i c'.searchers_map)
              ≡ ite (e.dec s t) (some (hosts t)) (lookup t (shards_of i c.searchers_map)))
  unfolding update_with_index_shard_info
  update_with_index_shard_info_lem i s hosts c h = (
    record c {
      searchers_map = set_shard i s (hosts s) c.searchers_map;
      searchers_stats =
          (if has_key i c.searchers_stats
            then c.searchers_stats
            else set_shard i s new_stats (insert i [] c.searchers_stats));
    },
    rw (update_with_index_shard_info, h s) refl,
    refl,
    refl,
    λ t. lookup-set_shard i s t (hosts s) c.searchers_map ∙ (elim (e.dec s t) [
      | yes q ↦
          if_pos (e.dec s t) q _ _ ∙ ap (λ x. some (hosts x)) q ∙ sym (if_pos (e.dec s t) q _ _)
      | no n ↦ if_neg (e.dec s t) n _ _ ∙ sym (if_neg (e.dec s t) n _ _)
    ]),
  )

  update_shards_lem :
      (i : Name) (ss : List Name) (hosts : Name → List Name) (c : CoordinatorImpl E)
      → ((t : Name) → E.list_searcher_hosts c.etcd i t ≡ some (hosts t))
      → (c' : CoordinatorImpl E) × (update_shards E i ss c ≡ (true, c'))
        × (c'.asked ≡ c.asked)
        × ((t : Name)
            → lookup t (shards_of i c'.searchers_map)
              ≡ (if member t ss then some (hosts t) else lookup t (shards_of i c.searchers_map)))
  unfolding update_shards member
  update_shards_lem i [] hosts c h = (c, refl, refl, λ t. refl)
  update_shards_lem i (s ∷ ss) hosts c h =
      let (c', x, y, a, z) = update_with_index_shard_info_lem i s hosts c h in
      let (c'', x', a', z') =
        update_shards_lem i ss hosts c' (λ t. ap (λ st. E.list_searcher_hosts st i t) y ∙ h t) in
      (
        c'',
        ap (λ u. if u.0 then update_shards E i ss u.1 else (false, u.1)) x ∙ x',
        a' ∙ a,
        λ t. z' t ∙ ap (λ l. if member t ss then some (hosts t) else l) (z t) ∙ ground arith,
      )

  update_shards_one :
      (i s : Name) (c : CoordinatorImpl E)
      → update_with_index_shard_info E i s c ≡ update_shards E i (s ∷ []) c
  unfolding update_shards
  update_shards_one i s c = let u = update_with_index_shard_info E i s c in if_same u.0 u.1

module _ {Name Vec : Type 0} (E : Etcd Name) ⦃e : Key Name⦄ where
  -- The shards that UpdateSearchersState reads: the one of the request, or all that etcd lists.
  abbrev pub named_shards : SearchRequest Name Vec → E.State → Option (List Name)
  named_shards request etcd = elim request.shard_id [
    | some s ↦ some (s ∷ [])
    | none ↦ E.list_shard_ids etcd request.index_id
  ]

  -- If etcd answers, UpdateSearchersState gives every shard that it reads the hosts that etcd lists
  -- for it, and asks no searcher. Every other shard of the index keeps its old hosts: also one that
  -- etcd lists no longer, and, if the request names a shard, all the others, which the handler then
  -- asks as well.
  pub update_searchers_state_lem :
      (request : SearchRequest Name Vec) (ss : List Name) (hosts : Name → List Name)
      (c : CoordinatorImpl E)
      → named_shards request c.etcd ≡ some ss
      → ((t : Name) → E.list_searcher_hosts c.etcd request.index_id t ≡ some (hosts t))
      → (c' : CoordinatorImpl E) × (update_searchers_state E request c ≡ (true, c'))
        × (c'.asked ≡ c.asked)
        × ((t : Name)
            → lookup t (shards_of request.index_id c'.searchers_map) ≡ (
                if member t ss
                then some (hosts t)
                else lookup t (shards_of request.index_id c.searchers_map)))
  unfolding update_searchers_state
  update_searchers_state_lem request ss hosts c n h =
      let i = request.index_id in
      let (c', x, a, y) = update_shards_lem E i ss hosts c h in
      (
        c',
        (elim (Option-cases request.shard_id) [
          | inl q ↦ let l = rw q at n in rw (update_searchers_state, q, l) x
          | inr (s, q) ↦
              let l = some-injective _ _ (rw q at n) in
              rw (update_searchers_state, q)
                (update_shards_one E i s c ∙ ap (λ k. update_shards E i k c) l ∙ x)
        ]),
        a,
        y,
      )
