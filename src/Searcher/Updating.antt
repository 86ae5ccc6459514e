-- ===== src/Searcher/Updating.antt =====
-- ProcessUpdateRequest: the one shard that an update changes.
use vecodex.Prelude.{
  ℕ, ◌+◌, ◌≡◌, refl, ap, ◌∙◌, sym, subst, Option, some, List, [], ◌∷◌, Key, lookup, insert,
  lookup-insert, ite, if_pos, if_neg, arith,
}
use vecodex.Coordinator.Handler.{shards_of, set_shard}
use vecodex.Coordinator.Handler.Updating.{lookup-set_shard}
use vecodex.Writer.Updating.{shards_of-lookup}
use vecodex.Searcher.{
  SearcherOps, SearcherImpl, UpdateRequest, answer, count_of, push_added, erase_deleted,
  process_update_request,
}

module _ {Name V : Type 0} ⦃e : Key Name⦄ where
  -- What a map of maps holds for `j` and `t` when the entry of `i` and `s` is `v`.
  abbrev pub entry_after : Name → Name → V → List (Name × List (Name × V)) → Name → Name → Option V
  entry_after i s v m j t =
      ite (e.dec i j) (ite (e.dec s t) (some v) (lookup t (shards_of j m)))
        (lookup t (shards_of j m))

  pub entry_after-set_shard :
      (i s : Name) (v : V) (m : List (Name × List (Name × V))) (j t : Name)
      → lookup t (shards_of j (set_shard i s v m)) ≡ entry_after i s v m j t
  unfolding set_shard
  entry_after-set_shard i s v m j t = elim (e.dec i j) [
    | yes p ↦
        subst
          (λ k.
            lookup t (shards_of k (set_shard i s v m))
            ≡ ite (e.dec s t) (some v) (lookup t (shards_of k m)))
          p (lookup-set_shard i s t v m)
        ∙ sym (if_pos (e.dec i j) p _ _)
    | no n ↦
        ap (λ l. lookup t l)
          (shards_of-lookup j (set_shard i s v m) m
            (lookup-insert i j (insert s v (shards_of i m)) m ∙ if_neg (e.dec i j) n _ _))
        ∙ sym (if_neg (e.dec i j) n _ _)
  ]

  entry_after_twice :
      (i s : Name) (u v : V) (m m' : List (Name × List (Name × V))) (j t : Name)
      → lookup t (shards_of j m') ≡ entry_after i s u m j t
      → entry_after i s v m' j t ≡ entry_after i s v m j t
  entry_after_twice i s u v m m' j t h = ground arith

  entry_after_same :
      (i s : Name) (v : V) (m : List (Name × List (Name × V))) (j t : Name)
      → lookup s (shards_of i m) ≡ some v
      → lookup t (shards_of j m) ≡ entry_after i s v m j t
  entry_after_same i s v m j t h = elim (e.dec i j) [
    | no n ↦ sym (if_neg (e.dec i j) n _ _)
    | yes p ↦ elim (e.dec s t) [
      | no n ↦ sym (if_pos (e.dec i j) p _ _ ∙ if_neg (e.dec s t) n _ _)
      | yes q ↦
          subst (λ k. lookup t (shards_of k m) ≡ some v) p
            (subst (λ k. lookup k (shards_of i m) ≡ some v) q h)
          ∙ sym (if_pos (e.dec i j) p _ _ ∙ if_pos (e.dec s t) q _ _)
    ]
  ]

  pub entry_after_here :
      (i s : Name) (v : V) (m : List (Name × List (Name × V))) → entry_after i s v m i s ≡ some v
  entry_after_here i s v m = if_pos (e.dec i i) refl _ _ ∙ if_pos (e.dec s s) refl _ _

module _ {Config DocId Vec : Type 0} (O : SearcherOps Config DocId Vec) where
  abbrev pub push_each : List O.Seg → O.Ix → O.Ix
  push_each [] x = x
  push_each (segment ∷ segments) x = push_each segments (O.push_segment segment x)

  -- The storage gives these segments for these ids.
  abbrev pub AreFetched : (ℕ → Option O.Seg) → List ℕ → List O.Seg → Type 0
  AreFetched fetch [] [] = Unit {0}
  AreFetched fetch [] (segment ∷ segments) = ⊥
  AreFetched fetch (id ∷ ids) [] = ⊥
  AreFetched fetch (id ∷ ids) (segment ∷ segments) =
      (fetch id ≡ some segment) × AreFetched fetch ids segments

  abbrev pub erase_each : List ℕ → O.Ix → O.Ix
  erase_each [] x = x
  erase_each (id ∷ ids) x = erase_each ids (O.erase_segment id x)

module _ {Config DocId Vec Name : Type 0} (O : SearcherOps Config DocId Vec) ⦃e : Key Name⦄ where
  push_added_lem :
      (fetch : Name → ℕ → Option O.Seg) (i s : Name) (ids : List ℕ) (segments : List O.Seg)
      (x : O.Ix) (m : List (Name × List (Name × O.Ix)))
      → AreFetched O (fetch i) ids segments
      → lookup s (shards_of i m) ≡ some x
      → (m' : List (Name × List (Name × O.Ix))) × (push_added O fetch i s ids m ≡ answer m')
        × ((j t : Name)
            → lookup t (shards_of j m') ≡ entry_after i s (push_each O segments x) m j t)
  unfolding push_added
  push_added_lem fetch i s [] [] x m f h = (m, refl, λ j t. entry_after_same i s x m j t h)
  push_added_lem fetch i s [] (segment ∷ segments) x m f h = absurd f
  push_added_lem fetch i s (id ∷ ids) [] x m f h = absurd f
  push_added_lem fetch i s (id ∷ ids) (segment ∷ segments) x m f h =
      let x₁ = O.push_segment segment x in
      let m₁ = set_shard i s x₁ m in
      let put = entry_after-set_shard i s x₁ m in
      let (m', p, q) =
        push_added_lem fetch i s ids segments x₁ m₁ f.1 (put i s ∙ entry_after_here i s x₁ m) in
      (
        m',
        rw (push_added, f.0, h) p,
        λ j t. q j t ∙ entry_after_twice i s x₁ (push_each O segments x₁) m m₁ j t (put j t),
      )

  erase_deleted_lem :
      (i s : Name) (ids : List ℕ) (x : O.Ix) (m : List (Name × List (Name × O.Ix)))
      → lookup s (shards_of i m) ≡ some x
      → (m' : List (Name × List (Name × O.Ix))) × (erase_deleted O i s ids m ≡ answer m')
        × ((j t : Name) → lookup t (shards_of j m') ≡ entry_after i s (erase_each O ids x) m j t)
  unfolding erase_deleted
  erase_deleted_lem i s [] x m h = (m, refl, λ j t. entry_after_same i s x m j t h)
  erase_deleted_lem i s (id ∷ ids) x m h =
      let x₁ = O.erase_segment id x in
      let m₁ = set_shard i s x₁ m in
      let put = entry_after-set_shard i s x₁ m in
      let (m', p, q) = erase_deleted_lem i s ids x₁ m₁ (put i s ∙ entry_after_here i s x₁ m) in
      (
        m',
        rw (erase_deleted, h) p,
        λ j t. q j t ∙ entry_after_twice i s x₁ (erase_each O ids x₁) m m₁ j t (put j t),
      )

  pub process_update_request_lem :
      (fetch : Name → ℕ → Option O.Seg) (segments : List O.Seg) (request : UpdateRequest Name)
      (x : O.Ix) (w : SearcherImpl Name O)
      → AreFetched O (fetch request.index_id) request.added segments
      → lookup request.shard_id (shards_of request.index_id w.shards) ≡ some x
      → (w' : SearcherImpl Name O) × (process_update_request O fetch request w ≡ answer w')
        × ((j t : Name)
            → lookup t (shards_of j w'.shards)
              ≡ entry_after request.index_id request.shard_id
                  (erase_each O request.deleted (push_each O segments x))
                  w.shards
                  j
                  t)
  unfolding process_update_request
  process_update_request_lem fetch segments request x w f h =
      let i = request.index_id in
      let s = request.shard_id in
      let pushed = push_each O segments x in
      let (m, p, q) = push_added_lem fetch i s request.added segments x w.shards f h in
      let (m', p', q') =
        erase_deleted_lem i s request.deleted pushed m
          (q i s ∙ entry_after_here i s pushed w.shards) in
      (
        record w {
          shards = m';
          updates_count = set_shard i s (count_of i s w.updates_count + 1) w.updates_count;
        },
        rw (process_update_request, p, p') refl,
        λ j t.
            q' j t
            ∙ entry_after_twice i s pushed (erase_each O request.deleted pushed) w.shards m j t
                (q j t),
      )
