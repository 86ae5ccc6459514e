-- ===== src/Searcher/Creating.antt =====
-- The constructor of SearcherImpl: every configured shard is created and registered.
use mathlib.Core.List.{Memᴰ}
use mathlib.Core.List.Memᴰ as Memᴰ
use mathlib.Core.Option.{some-injective}
use vecodex.Prelude.{
  ℕ, ◌≡◌, ap, ◌∙◌, sym, subst, Option-cases, none, some, none≢some, List, [], ◌∷◌, map, Key, lookup,
  if_pos, if_neg, inl, inr,
}
use vecodex.Coordinator.Handler.{shards_of, set_shard}
use vecodex.Coordinator.Handler.Asking.{lookup-shards_of-set_shard}
use vecodex.EtcdClient.{Text, Server}
use vecodex.StorageClient.{S3, StorageClient}
use vecodex.Searcher.{SearcherOps, SearcherImpl, create_shards, registered}
use vecodex.Searcher.Updating.{entry_after-set_shard}
use vecodex.Searcher.Serving.{init, address, create_searcher}

module _ {K V : Type 0} ⦃e : Key K⦄ where
  lookup-Memᴰ : (k : K) (v : V) (m : List (K × V)) → lookup k m ≡ some v → Memᴰ (k, v) m
  unfolding lookup
  lookup-Memᴰ k v [] h = absurd (none≢some h)
  lookup-Memᴰ k v ((j, w) ∷ m) h = elim (e.dec j k) [
    | yes q ↦
        let r = some-injective _ _ (sym (if_pos (e.dec j k) q _ _) ∙ h) in
        Memᴰ.head (λ d. (sym q d, sym r d))
    | no n ↦ Memᴰ.tail (lookup-Memᴰ k v m (sym (if_neg (e.dec j k) n _ _) ∙ h))
  ]

module _ {Name V : Type 0} ⦃e : Key Name⦄ where
  abbrev pub HasShard : Name → Name → List (Name × List (Name × V)) → Type 0
  HasShard i s m = (x : V) × (lookup s (shards_of i m) ≡ some x)

  HasShard-set_shard :
      (i s : Name) (v : V) (m : List (Name × List (Name × V))) (j t : Name)
      → HasShard j t m
      → HasShard j t (set_shard i s v m)
  HasShard-set_shard i s v m j t (x, h) =
      let entry = entry_after-set_shard i s v m j t in
      elim (e.dec i j) [
        | yes p ↦ elim (e.dec s t) [
          | yes q ↦ (v, entry ∙ if_pos (e.dec i j) p _ _ ∙ if_pos (e.dec s t) q _ _)
          | no q ↦ (x, entry ∙ if_pos (e.dec i j) p _ _ ∙ if_neg (e.dec s t) q _ _ ∙ h)
        ]
        | no p ↦ (x, entry ∙ if_neg (e.dec i j) p _ _ ∙ h)
      ]

module _ {Config DocId Vec Name : Type 0} (O : SearcherOps Config DocId Vec) ⦃e : Key Name⦄ where
  create_shards-keeps :
      (configs : List (Name × Name × Config)) (m m' : List (Name × List (Name × O.Ix))) (j t : Name)
      → create_shards O configs m ≡ some m'
      → HasShard j t m
      → HasShard j t m'
  unfolding create_shards
  create_shards-keeps [] m m' j t h (x, g) =
      (x, ap (λ l. lookup t (shards_of j l)) (sym (some-injective _ _ h)) ∙ g)
  create_shards-keeps ((i, s, config) ∷ configs) m m' j t h g =
      elim (Option-cases (O.create config)) [
        | inl q ↦ absurd (none≢some (rw (create_shards, q) at h))
        | inr (x, q) ↦
            create_shards-keeps configs (set_shard i s x m) m' j t (rw (create_shards, q) at h)
              (HasShard-set_shard i s x m j t g)
      ]

  create_shards-HasShard :
      (configs : List (Name × Name × Config)) (m m' : List (Name × List (Name × O.Ix))) (j t : Name)
      (config : Config)
      → create_shards O configs m ≡ some m'
      → Memᴰ (j, t, config) configs
      → HasShard j t m'
  unfolding create_shards
  create_shards-HasShard [] m m' j t config h k = absurd (Memᴰ.not-nil k)
  create_shards-HasShard ((i, s, c) ∷ configs) m m' j t config h k =
      elim (Option-cases (O.create c)) [
        | inl q ↦ absurd (none≢some (rw (create_shards, q) at h))
        | inr (x, q) ↦
            let h' = rw (create_shards, q) at h in
            elim (Memᴰ.cases_cons k) [
              | inl p ↦
                  let i' = ap (λ (y : Name × Name × Config). y.0) p in
                  let s' = ap (λ (y : Name × Name × Config). y.1) p in
                  create_shards-keeps configs (set_shard i s x m) m' j t h' (
                    x,
                    ap (λ l. lookup t (shards_of l (set_shard i s x m))) i'
                        ∙ ap (λ l. lookup l (shards_of i (set_shard i s x m))) s'
                        ∙ lookup-shards_of-set_shard i s x m,
                  )
              | inr k' ↦ create_shards-HasShard configs (set_shard i s x m) m' j t config h' k'
            ]
      ]

  HasShard-registered :
      (i s : Name) (x : O.Ix) (m : List (Name × List (Name × O.Ix)))
      → lookup s (shards_of i m) ≡ some x
      → Memᴰ (i, s) (registered O m)
  unfolding registered shards_of lookup
  HasShard-registered i s x [] h = absurd (none≢some h)
  HasShard-registered i s x ((j, l) ∷ m) h = elim (e.dec j i) [
    | yes q ↦
        let known =
          ap (λ t. lookup s (elim t as (λ y. List (Name × O.Ix)) [ none ↦ [] | some y ↦ y ]))
            (if_pos (e.dec j i) q (some l) (lookup i m)) in
        let k = Memᴰ.map (λ (p : Name × O.Ix). (j, p.0)) (lookup-Memᴰ s x l (sym known ∙ h)) in
        Memᴰ.append_left (registered O m)
          (subst (λ u. Memᴰ {A = Name × Name} (u, s) (map (λ p. (j, p.0)) l)) q k)
    | no n ↦
        let known =
          ap (λ t. lookup s (elim t as (λ y. List (Name × O.Ix)) [ none ↦ [] | some y ↦ y ]))
            (if_neg (e.dec j i) n (some l) (lookup i m)) in
        Memᴰ.append_right (map (λ p. (j, p.0)) l) (HasShard-registered i s x m (sym known ∙ h))
  ]

module _ {Config DocId Vec : Type 0} (S : S3) (hash : Text → ℕ) (E : Server)
    (O : SearcherOps Config DocId Vec) ⦃e : Key Text⦄ where
  -- The searcher has every configured shard, and its address goes to etcd for it.
  pub create_searcher-registered :
      (host port : Text) (configs : List (Text × Text × Config)) (before started : E.State)
      (client client' : StorageClient) (st : S.State) (w : SearcherImpl Text O) (i s : Text)
      (config : Config)
      → create_searcher S hash E O host port configs before client st ≡ some (w, started, client')
      → Memᴰ (i, s, config) configs
      → (init E (address host port) (registered O w.shards) before ≡ some started)
        × Memᴰ (i, s) (registered O w.shards)
  unfolding create_searcher
  create_searcher-registered host port configs before started client client' st w i s config h k =
      elim (Option-cases (create_shards O configs [])) [
        | inl q ↦ absurd (none≢some (rw (create_searcher, q) at h))
        | inr (shards, q) ↦
            elim (Option-cases (init E (address host port) (registered O shards) before)) [
              | inl p ↦ absurd (none≢some (rw (create_searcher, q, p) at h))
              | inr (etcd', p) ↦
                  let r = some-injective _ _ (rw (create_searcher, q, p) at h) in
                  let same = ap (λ y. y.0.shards) r in
                  let (x, g) = create_shards-HasShard O configs [] shards i s config q k in
                  (
                    ap (λ l. init E (address host port) (registered O l) before) (sym same)
                        ∙ p
                        ∙ ap (λ y. some y.1) r,
                    subst (λ l. Memᴰ (i, s) (registered O l)) same
                        (HasShard-registered O i s x shards g),
                  )
            ]
      ]
