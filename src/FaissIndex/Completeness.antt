-- ===== src/FaissIndex/Completeness.antt =====
-- `single_search` asks faiss for as many more hits as positions are erased: that is enough.
use vecodex.Prelude.{
  ℕ, ◌+◌, ◌≤◌, ◌<◌, ◌≡◌, refl, true, Option, none, some, List, [], ◌∷◌, map, Order, Key, nat_key,
  lookup, has_key, length, length-map, arith, All, Option-cases, inl, inr, min,
}
use vecodex.FaissIndex.{
  Faiss, FaissIndex, live_hits, single_search, live_entries, create, register, register_all,
  add_batch, erase_one, erase_batch, merge_from_other, rebuilt, ids_of,
}
use vecodex.FaissIndex.Numbering.{has_key-number}
use vecodex.FaissIndex.Validity.{IsValid}
use vecodex.FaissIndex.Sorting.{IsAscending}
use vecodex.FaissIndex.Soundness.{IsLive, dists, single_search_lem}
use vecodex.FaissIndex.History.{Call, adds, erases, merges, run, all_added, run-create-IsValid}
use vecodex.FaissIndex.Counting.{IsDistinct, hidden, hidden-le}

-- The labels of a faiss search, less the -1 that fill it up.
abbrev pub labels : {Dist : Type 0} → List (Dist × Option ℕ) → List ℕ
labels [] = []
labels ((d, none) ∷ hits) = labels hits
labels ((d, some p) ∷ hits) = p ∷ labels hits

-- What faiss documents of an exhaustive index: positions in the order of `add`, and a search for
-- `n` that finds `n` different ones, or all if there are fewer.
pub record Exhaustive {Vec Dist : Type 0} (F : Faiss Vec Dist) : Type 0 where
  pub ntotal : F.State → ℕ
  pub ntotal-create : ntotal F.create ≡ 0
  pub ntotal-add : (x : F.State) (vs : List Vec) → ntotal (F.add x vs) ≡ ntotal x + length vs
  pub search_below :
      (x : F.State) (q : Vec) (n : ℕ) → All (λ p. p < ntotal x) (labels (F.search x q n))
  pub search_distinct : (x : F.State) (q : Vec) (n : ℕ) → IsDistinct (labels (F.search x q n))
  pub search_count :
      (x : F.State) (q : Vec) (n : ℕ) → length (labels (F.search x q n)) ≡ min n (ntotal x)

module _ {Vec Dist IdType : Type 0} (F : Faiss Vec Dist) ⦃e : Key IdType⦄ ⦃o : Order Dist⦄ where
  -- A known label is kept unless it is hidden.
  live_hits_count :
      (h : List IdType) (s : FaissIndex F IdType) (v : IsValid F h s)
      (hits : List (Dist × Option ℕ))
      → All (λ p. p < s.next_id) (labels hits)
      → length (live_hits F s hits) + hidden s.erased (labels hits) ≡ length (labels hits)
  unfolding live_hits hidden
  live_hits_count h s v [] b = omega arith
  live_hits_count h s v ((d, none) ∷ hits) b = live_hits_count h s v hits b
  live_hits_count h s v ((d, some p) ∷ hits) b =
      let known : has_key p s.inv_ids ≡ true =
        rw v.numbered (has_key-number 0 p h (omega arith) (omega (arith, v.next, b.0))) in
      rw known (ground (arith, live_hits_count h s v hits b.1))

  module _ (x : Exhaustive F) (h : List IdType) (s : FaissIndex F IdType) (v : IsValid F h s)
      (t : x.ntotal s.index ≡ s.next_id) where
    enough_hits :
        (k : ℕ) (q : Vec)
        → min k (length (live_entries s.erased s.inv_ids))
          ≤ length (live_hits F s (F.search s.index q (k + length s.erased)))
    enough_hits k q =
        let n = k + length s.erased in
        omega (
          arith,
          t,
          v.counted,
          x.search_count s.index q n,
          hidden-le s.erased (labels (F.search s.index q n)) (x.search_distinct s.index q n),
          live_hits_count h s v (F.search s.index q n) (rw t at (x.search_below s.index q n)),
        )

    -- On a valid index.
    pub single_search_complete :
        (k : ℕ) (q : Vec)
        → (out : List (IdType × Dist)) × (single_search F k q s ≡ some out)
          × All (IsLive F s) out
          × IsAscending (dists F out)
          × (min k (length (live_entries s.erased s.inv_ids)) ≤ length out)
          × (length out ≤ k)
    single_search_complete k q =
        let (out, r, live, asc, len) = single_search_lem F k q s in
        (out, r, live, asc, omega (arith, len, enough_hits k q), omega (arith, len))

  -- The faiss index holds a vector for every position, after any calls.
  module _ (x : Exhaustive F) where
    register_all_next :
        (is : List IdType) (s : FaissIndex F IdType)
        → ((register_all F is s).index ≡ s.index)
          × ((register_all F is s).next_id ≡ length is + s.next_id)
    unfolding register_all
    register_all_next [] s = (refl, omega arith)
    register_all_next (i ∷ is) s =
        let (a, b) = register_all_next is (register F i s) in (a, omega (arith, b))

    add_batch_total :
        (vs : List (IdType × Vec)) (s : FaissIndex F IdType)
        → x.ntotal s.index ≡ s.next_id
        → x.ntotal (add_batch F vs s).index ≡ (add_batch F vs s).next_id
    unfolding add_batch
    add_batch_total vs s t =
        let (a, b) =
          register_all_next (ids_of vs) (record s { index = F.add s.index (map (λ v. v.1) vs) }) in
        rw a (
          omega (
            arith,
            b,
            t,
            x.ntotal-add s.index (map (λ v. v.1) vs),
            length-map (λ (v : IdType × Vec). v.0) vs,
            length-map (λ (v : IdType × Vec). v.1) vs,
          ))

    erase_batch_total :
        (is : List IdType) (s : FaissIndex F IdType)
        → x.ntotal s.index ≡ s.next_id
        → x.ntotal (erase_batch F is s).index ≡ (erase_batch F is s).next_id
    unfolding erase_batch erase_one
    erase_batch_total [] s t = t
    erase_batch_total (i ∷ is) s t =
        erase_batch_total is (erase_one F i s) (elim (Option-cases (lookup i s.ids)) [
          | inl q ↦ rw (q, erase_one) t
          | inr (p, q) ↦ rw (q, erase_one) t
        ])

    run_total :
        (cs : List (Call F IdType)) (s : FaissIndex F IdType)
        → x.ntotal s.index ≡ s.next_id
        → x.ntotal (run F cs s).index ≡ (run F cs s).next_id
    unfolding run merge_from_other
    run_total [] s t = t
    run_total (adds vs ∷ cs) s t = run_total cs (add_batch F vs s) (add_batch_total vs s t)
    run_total (erases is ∷ cs) s t = run_total cs (erase_batch F is s) (erase_batch_total is s t)
    run_total (merges other ∷ cs) s t =
        run_total cs (add_batch F (rebuilt F other) s) (add_batch_total (rebuilt F other) s t)

    -- After any calls on an index over an exhaustive faiss index, `single_search` does not throw:
    -- it returns `k` results, or all that are live if those are fewer; each is live, and their
    -- distances do not fall.
    pub run-single_search :
        (cs : List (Call F IdType)) (k : ℕ) (q : Vec)
        → let s = run F cs (create F) in
          (out : List (IdType × Dist)) × (single_search F k q s ≡ some out)
          × All (IsLive F s) out
          × IsAscending (dists F out)
          × (min k (length (live_entries s.erased s.inv_ids)) ≤ length out)
          × (length out ≤ k)
    run-single_search cs =
        single_search_complete x (all_added F cs) (run F cs (create F)) (run-create-IsValid F cs)
          (run_total cs (create F) (unfold create in x.ntotal-create))
