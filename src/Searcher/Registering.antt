-- ===== src/Searcher/Registering.antt =====
-- The shards that Init and GracefulShutdown go through, over the life of a searcher.
use mathlib.Core.Option.{some-injective}
use vecodex.Prelude.{
  none≢some, ℕ, ◌≡◌, refl, ap, ◌∙◌, sym, Option, none, some, List, [], ◌∷◌, ◌++◌, map, Key, lookup,
  insert, if_pos, if_neg, Option-cases, inl, inr, arith,
}
use vecodex.Coordinator.Handler.{SearchRequest, shards_of, set_shard}
use vecodex.Searcher.{
  SearcherOps, SearcherImpl, UpdateRequest, Outcome, answer, answer_injective, exception, crash,
  and_then, push_added, erase_deleted, process_search_request, process_update_request, registered,
}

module _ {Name V : Type 0} ⦃e : Key Name⦄ where
  map-insert :
      (A : Type 0) (f : Name → A) (s : Name) (v x : V) (m : List (Name × V))
      → lookup s m ≡ some x
      → map (λ p. f p.0) (insert s v m) ≡ map (λ p. f p.0) m
  unfolding insert lookup
  map-insert A f s v x [] h = ground arith
  map-insert A f s v x ((j, w) ∷ m) h = elim (e.dec j s) [
    | yes q ↦
        ap (λ l. map (λ p. f p.0) l) (if_pos (e.dec j s) q ((s, v) ∷ m) ((j, w) ∷ insert s v m))
        ∙ ap (λ k. f k ∷ map (λ p. f p.0) m) (sym q)
    | no n ↦
        ap (λ l. map (λ p. f p.0) l) (if_neg (e.dec j s) n ((s, v) ∷ m) ((j, w) ∷ insert s v m))
        ∙ ap (λ l. f j ∷ l)
            (map-insert A f s v x m (sym (if_neg (e.dec j s) n (some w) (lookup s m)) ∙ h))
  ]

crash≢answer : {A : Type 0} {a : A} → crash ≡ answer a → ⊥
crash≢answer h = cc

pub and_then-answer :
    {A B : Type 0} (r : Outcome A) (f : A → Outcome B) (b : B)
    → and_then r f ≡ answer b
    → (a : A) × (r ≡ answer a) × (f a ≡ answer b)
and_then-answer (answer a) f b h = (a, refl, h)
and_then-answer exception f b h = cc
and_then-answer crash f b h = cc

module _ {Config DocId Vec Name : Type 0} (O : SearcherOps Config DocId Vec) ⦃e : Key Name⦄ where
  registered-insert :
      (i : Name) (l old : List (Name × O.Ix)) (m : List (Name × List (Name × O.Ix)))
      → lookup i m ≡ some old
      → map {B = Name × Name} (λ p. (i, p.0)) l ≡ map {B = Name × Name} (λ p. (i, p.0)) old
      → registered O (insert i l m) ≡ registered O m
  unfolding insert lookup registered
  registered-insert i l old [] h g = ground arith
  registered-insert i l old ((j, l') ∷ m) h g = elim (e.dec j i) [
    | yes q ↦
        let same = some-injective _ _ (sym (if_pos (e.dec j i) q (some l') (lookup i m)) ∙ h) in
        ap (λ t. registered O t) (if_pos (e.dec j i) q ((i, l) ∷ m) ((j, l') ∷ insert i l m))
        ∙ ap (λ t. t ++ registered O m)
            (g ∙ ap (λ k. map {B = Name × Name} (λ p. (i, p.0)) k) (sym same))
        ∙ ap (λ k. map {B = Name × Name} (λ p. (k, p.0)) l' ++ registered O m) (sym q)
    | no n ↦
        ap (λ t. registered O t) (if_neg (e.dec j i) n ((i, l) ∷ m) ((j, l') ∷ insert i l m))
        ∙ ap (λ t. map {B = Name × Name} (λ p. (j, p.0)) l' ++ t)
            (registered-insert i l old m (sym (if_neg (e.dec j i) n (some l') (lookup i m)) ∙ h) g)
  ]

  registered-set_shard :
      (i s : Name) (v x : O.Ix) (m : List (Name × List (Name × O.Ix)))
      → lookup s (shards_of i m) ≡ some x
      → registered O (set_shard i s v m) ≡ registered O m
  unfolding set_shard shards_of lookup
  registered-set_shard i s v x m h = elim (Option-cases (lookup i m)) [
    | inl q ↦
        absurd (none≢some (sym (ap (λ l. lookup s (elim l [ none ↦ [] | some t ↦ t ])) q) ∙ h))
    | inr (old, q) ↦
        let same = ap (λ l. elim l as (λ t. List (Name × O.Ix)) [ none ↦ [] | some t ↦ t ]) q in
        registered-insert i (insert s v (shards_of i m)) old m q (
          map-insert (Name × Name) (λ k. (i, k)) s v x (shards_of i m) h
          ∙ ap (λ t. map {B = Name × Name} (λ p. (i, p.0)) t) same)
  ]

  push_added-registered :
      (fetch : Name → ℕ → Option O.Seg) (i s : Name) (ids : List ℕ)
      (m m' : List (Name × List (Name × O.Ix)))
      → push_added O fetch i s ids m ≡ answer m'
      → registered O m' ≡ registered O m
  unfolding push_added
  push_added-registered fetch i s [] m m' h =
      ap (λ t. registered O t) (sym (answer_injective _ _ h))
  push_added-registered fetch i s (id ∷ ids) m m' h = elim (Option-cases (fetch i id)) [
    | inl q ↦ absurd (crash≢answer (sym (rw (push_added, q) refl) ∙ h))
    | inr (segment, q) ↦ elim (Option-cases (lookup s (shards_of i m))) [
      | inl r ↦ absurd (crash≢answer (sym (rw (push_added, q, r) refl) ∙ h))
      | inr (x, r) ↦
          push_added-registered fetch i s ids (set_shard i s (O.push_segment segment x) m) m'
            (sym (rw (push_added, q, r) refl) ∙ h)
          ∙ registered-set_shard i s (O.push_segment segment x) x m r
    ]
  ]

  erase_deleted-registered :
      (i s : Name) (ids : List ℕ) (m m' : List (Name × List (Name × O.Ix)))
      → erase_deleted O i s ids m ≡ answer m'
      → registered O m' ≡ registered O m
  unfolding erase_deleted
  erase_deleted-registered i s [] m m' h = ap (λ t. registered O t) (sym (answer_injective _ _ h))
  erase_deleted-registered i s (id ∷ ids) m m' h = elim (Option-cases (lookup s (shards_of i m))) [
    | inl r ↦ absurd (crash≢answer (sym (rw (erase_deleted, r) refl) ∙ h))
    | inr (x, r) ↦
        erase_deleted-registered i s ids (set_shard i s (O.erase_segment id x) m) m'
          (sym (rw (erase_deleted, r) refl) ∙ h)
        ∙ registered-set_shard i s (O.erase_segment id x) x m r
  ]

  process_update_request-registered :
      (fetch : Name → ℕ → Option O.Seg) (request : UpdateRequest Name) (w w' : SearcherImpl Name O)
      → process_update_request O fetch request w ≡ answer w'
      → registered O w'.shards ≡ registered O w.shards
  unfolding process_update_request
  process_update_request-registered fetch request w w' h =
      let i = request.index_id in
      let s = request.shard_id in
      let (pushed, p, h₁) =
        and_then-answer (push_added O fetch i s request.added w.shards) _ w' h in
      let (erased, q, h₂) = and_then-answer (erase_deleted O i s request.deleted pushed) _ w' h₁ in
      ap (λ u. registered O u.shards) (sym (answer_injective _ _ h₂))
      ∙ erase_deleted-registered i s request.deleted pushed erased q
      ∙ push_added-registered fetch i s request.added w.shards pushed p

module _ {Config DocId Vec : Type 0} (Name : Type 0) (O : SearcherOps Config DocId Vec) where
  pub data Request : Type 0 where
    search : SearchRequest Name Vec → Request
    -- What the storage gives meanwhile.
    update : (Name → ℕ → Option O.Seg) → UpdateRequest Name → Request

module _ {Config DocId Vec Name : Type 0} (O : SearcherOps Config DocId Vec) ⦃e : Key Name⦄ where
  -- The state after requests that do not crash.
  abbrev pub serve : List (Request Name O) → SearcherImpl Name O → Outcome (SearcherImpl Name O)
  serve [] w = answer w
  serve (search request ∷ requests) w = serve requests (process_search_request O request w).1
  serve (update fetch request ∷ requests) w =
      and_then (process_update_request O fetch request w) (serve requests)

  process_search_request_shards :
      (request : SearchRequest Name Vec) (w : SearcherImpl Name O)
      → (process_search_request O request w).1.shards ≡ w.shards
  unfolding process_search_request
  process_search_request_shards request w = ground arith

  -- After any requests that do not end in a crash a searcher has the shards that it had before, in
  -- the same order: GracefulShutdown removes from etcd exactly what Init added.
  pub serve-registered :
      (requests : List (Request Name O)) (w w' : SearcherImpl Name O)
      → serve requests w ≡ answer w'
      → registered O w'.shards ≡ registered O w.shards
  serve-registered [] w w' h = ap (λ u. registered O u.shards) (sym (answer_injective _ _ h))
  serve-registered (search request ∷ requests) w w' h =
      serve-registered requests (process_search_request O request w).1 w' h
      ∙ ap (λ m. registered O m) (process_search_request_shards request w)
  serve-registered (update fetch request ∷ requests) w w' h =
      let (w₁, p, h₁) = and_then-answer (process_update_request O fetch request w) _ w' h in
      serve-registered requests w₁ w' h₁ ∙ process_update_request-registered O fetch request w w₁ p
