-- ===== src/Searcher/Indexes.antt =====
-- The searcher over the indexes of the library: pushing segments into an index.
use vecodex.Prelude.{
  ℕ, suc, ◌≡◌, ◌≢◌, refl, ap, ◌∙◌, Option, none, some, List, [], ◌∷◌, ◌++◌, map, Key, Order, All,
  append_nil, append_one, if_intro, take, arith,
}
use mathlib.Core.List.{append_assoc}
use vecodex.BaseIndex.{IBaseIndex}
use vecodex.Segment
use vecodex.Segment.{Segment}
use vecodex.TopK.{SearchResult, result_order}
use vecodex.TopK.Sorting.{has, IsSorted}
use vecodex.Index.State.{Index, init, update, update_self, update_ne, storage_add, call_back}
use vecodex.Index.Operations
use vecodex.Index.Operations.{as_results, push_segment, erase_segment}
use vecodex.Index.Pointers.{IsClosed}
use vecodex.Index.History.{IsStable, IsStable-push_segment}
use vecodex.Index.Searching.{candidates, search_lem}
use vecodex.Writer.Indexes.{IndexConfig}
use vecodex.Searcher.{SearcherOps}
use vecodex.Searcher.Updating.{push_each, erase_each}

module _ {IdType Vec Dist : Type 0} (B : IBaseIndex IdType Vec Dist) ⦃e : Key IdType⦄ (rand : ℕ → ℕ)
    ⦃d : Order Dist⦄ ⦃o : Order IdType⦄ where
  abbrev pub library : SearcherOps IndexConfig IdType Vec
  library = record {
    Ix = Index B;
    Seg = Segment B;
    create = λ config. some (init B rand config.threshold config.enable_merge);
    search = λ q k x. Operations.search B rand k q x;
    push_segment = λ segment x. push_segment B rand segment x;
    erase_segment = λ id x. (erase_segment B rand id x).1;
  }

  -- The segments of an index, in the order in which a search asks them.
  abbrev pub segments_of : Index B → List (Segment B)
  segments_of x = map x.heap (x.segments ++ x.last ∷ [])

  -- What the segments answer.
  unfoldable pub answers : ℕ → Vec → List (Segment B) → Option (List (SearchResult Dist IdType))
  answers k q [] = some []
  answers k q (t ∷ ts) = elim (Segment.search_query B k q t) [
    | none ↦ none
    | some r ↦ elim (answers k q ts) [ none ↦ none | some rs ↦ some (as_results B rand r ++ rs) ]
  ]

  candidates-answers :
      (k : ℕ) (q : Vec) (heap : ℕ → Segment B) (ps : List ℕ)
      → candidates B rand k q heap ps ≡ answers k q (map heap ps)
  unfolding candidates answers
  candidates-answers k q heap [] = refl
  candidates-answers k q heap (p ∷ ps) =
      ap
        (λ (rest : Option (List (SearchResult Dist IdType))).
          elim (Segment.search_query B k q (heap p))
            as (λ u. Option (List (SearchResult Dist IdType))) [
              | none ↦ none
              | some r ↦ elim rest [ none ↦ none | some rs ↦ some (as_results B rand r ++ rs) ]
            ])
        (candidates-answers k q heap ps)

  map-append :
      (heap : ℕ → Segment B) (ps qs : List ℕ) → map heap (ps ++ qs) ≡ map heap ps ++ map heap qs
  map-append heap [] qs = refl
  map-append heap (p ∷ ps) qs = ap (λ l. heap p ∷ l) (map-append heap ps qs)

  map-update :
      (heap : ℕ → Segment B) (next last : ℕ) (t : Segment B) (ps : List ℕ)
      → All (IsClosed next last) ps
      → map (update heap next t) ps ≡ map heap ps
  map-update heap next last t [] h = refl
  map-update heap next last t (p ∷ ps) h =
      let n : next ≢ p = λ q. omega (arith, h.0.0, q) in
      rw (update_ne heap next p t n, map-update heap next last t ps h.1) refl

  -- The segments in `segments_`, and the last one.
  abbrev closed_of : Index B → List (Segment B)
  closed_of x = map x.heap x.segments

  abbrev last_of : Index B → Segment B
  last_of x = x.heap x.last

  -- One segment more in `segments_`, and the same last one.
  abbrev Pushed : List (Segment B) → Index B → Index B → Type 0
  Pushed ts x y = (closed_of y ≡ closed_of x ++ ts) × (last_of y ≡ last_of x)

  Pushed-call_back :
      (ts : List (Segment B)) (erased inserted : List ℕ) (x y : Index B)
      → Pushed ts x y
      → Pushed ts x (call_back B rand erased inserted y)
  unfolding call_back
  Pushed-call_back ts erased inserted x y h =
      if_intro (Pushed ts x) y.has_callback _ y (λ _. h) (λ _. h)

  push_segment-Pushed :
      (t : Segment B) (x : Index B)
      → IsStable B rand x
      → Pushed (t ∷ []) x (push_segment B rand t x)
  unfolding push_segment storage_add
  push_segment-Pushed t x (a, r) =
      let p = x.next_ptr in
      let heap = update x.heap p t in
      let y = storage_add B rand p (record x { next_ptr = suc p; heap = heap }) in
      let n : p ≢ x.last = λ q. omega (arith, a.allocated, q) in
      Pushed-call_back (t ∷ []) [] (p ∷ []) x (record y { segments = y.segments ++ p ∷ [] })
        (
          map-append heap x.segments (p ∷ [])
              ∙ rw (map-update x.heap p x.last t x.segments a.in_segments, update_self x.heap p t)
                  refl,
          update_ne x.heap p x.last t n,
        )

  push_each-Pushed :
      (ts : List (Segment B)) (x : Index B)
      → IsStable B rand x
      → Pushed ts x (push_each library ts x)
  push_each-Pushed [] x i = (append_nil (closed_of x), refl)
  push_each-Pushed (t ∷ ts) x i =
      let x₁ = push_segment B rand t x in
      let (c, l) = push_segment-Pushed t x i in
      let (c', l') = push_each-Pushed ts x₁ (IsStable-push_segment B rand t x i) in
      (c' ∙ ap (λ m. m ++ ts) c ∙ append_one (closed_of x) t ts, l' ∙ l)

  erase_each-same : (ids : List ℕ) (x : Index B) → erase_each library ids x ≡ x
  unfolding erase_segment
  erase_each-same [] x = refl
  erase_each-same (id ∷ ids) x = erase_each-same ids x

  -- What is asked after segments were pushed and others named for erasing.
  pub segments_of-push_each :
      (ts : List (Segment B)) (ids : List ℕ) (x : Index B)
      → IsStable B rand x
      → segments_of (erase_each library ids (push_each library ts x))
        ≡ map x.heap x.segments ++ (ts ++ x.heap x.last ∷ [])
  segments_of-push_each ts ids x i =
      let y = push_each library ts x in
      let (c, l) = push_each-Pushed ts x i in
      ap segments_of (erase_each-same ids y)
      ∙ map-append y.heap y.segments (y.last ∷ [])
      ∙ ap (λ m. m ++ last_of y ∷ []) c
      ∙ ap (λ t. (closed_of x ++ ts) ++ t ∷ []) l
      ∙ append_assoc (closed_of x) ts (last_of x ∷ [])

  -- Index::search by what the segments answer.
  pub search-answers :
      (k : ℕ) (q : Vec) (x : Index B) (ts : List (Segment B))
      (xs sorted : List (SearchResult Dist IdType))
      → segments_of x ≡ ts
      → answers k q ts ≡ some xs
      → IsSorted sorted
      → ((a : SearchResult Dist IdType) → has a sorted ≡ has a xs)
      → Operations.search B rand k q x ≡ some (map (λ r. r.id) (take k sorted))
  search-answers k q x ts xs sorted s a =
      search_lem B rand k q x xs sorted
        (candidates-answers k q x.heap (x.segments ++ x.last ∷ []) ∙ ap (answers k q) s ∙ a)
