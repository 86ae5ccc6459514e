-- ===== src/Index/Keeping.antt =====
-- SegmentStorage::merge leaves the last segment alone.
use vecodex.Prelude.{
  ℕ, zero, suc, ◌<◌, ◌≡◌, refl, sym, subst, ◌∙◌, not, ◌&&◌, Option, some, none≢some, List, [], ◌∷◌,
  ◌++◌, Key, ◌==◌, if_intro, All, All-append, Option-cases, Bool-cases, inl, inr,
}
use mathlib.Core.Option.{some-injective}
use vecodex.BaseIndex.{IBaseIndex}
use vecodex.FaissIndex.{size_mod}
use vecodex.Segment
use vecodex.Segment.{Segment}
use vecodex.Index.State.{Index, call_back}
use vecodex.Index.Storage.{
  Scan, scan, push_next, merge_fuel, merge_levels, merge, commit, start, erase_all, is_empty,
}
use vecodex.Index.Filling.{IsReady}
use vecodex.Index.Pointers.{IsClosed, AreEntries, IsApart}
use vecodex.Index.Scanning.{
  scan-IsScanned, All-erase_all, AreEntries-push_next, AreEntries-drop_null,
}

module _ {IdType Vec Dist : Type 0} (B : IBaseIndex IdType Vec Dist) ⦃e : Key IdType⦄
    (rand : ℕ → ℕ) where
  -- What a merge keeps of an index.
  record IsMerged (s s' : Index B) : Type 0 where
    last : s'.last ≡ s.last
    next_ptr : s'.next_ptr ≡ s.next_ptr
    threshold : s'.threshold ≡ s.threshold
    heap : s'.heap s.last ≡ s.heap s.last
    in_segments : All (IsClosed s.next_ptr s.last) s'.segments

  IsMerged-commit :
      (a : Scan B) (s : Index B)
      → a.heap s.last ≡ s.heap s.last
      → All (IsClosed s.next_ptr s.last) a.inserted
      → All (IsClosed s.next_ptr s.last) s.segments
      → IsMerged s (commit B rand a s)
  unfolding commit call_back
  IsMerged-commit a s h i g =
      let segments = erase_all B rand a.heap a.erased (s.segments ++ a.inserted) in
      let ok =
        All-erase_all B rand (IsClosed s.next_ptr s.last) a.heap a.erased (s.segments ++ a.inserted)
          (All-append (IsClosed s.next_ptr s.last) s.segments a.inserted g i) in
      let s' : Index B = record s {
        heap = a.heap;
        rands = a.rands;
        counter = a.counter;
        segments = segments;
      } in
      let plain : IsMerged s s' = record {
        last = refl;
        next_ptr = refl;
        threshold = refl;
        heap = h;
        in_segments = ok;
      } in
      if_intro (IsMerged s) (not (is_empty a.erased) && not (is_empty a.inserted)) _ s'
        (λ _.
          if_intro (IsMerged s) s.has_callback _ s'
            (λ _. record {
              last = refl;
              next_ptr = refl;
              threshold = refl;
              heap = h;
              in_segments = ok;
            })
            (λ _. plain))
        (λ _. plain)

  -- What holds of the bounds of one index holds of those of the other.
  along :
      (F : ℕ → ℕ → Type 0) (s t : Index B)
      → IsMerged s t
      → F s.next_ptr s.last
      → F t.next_ptr t.last
  along F s t m h =
      subst (λ p. F t.next_ptr p) (sym m.last) (subst (λ k. F k s.last) (sym m.next_ptr) h)

  back :
      (F : ℕ → ℕ → Type 0) (s t : Index B)
      → IsMerged s t
      → F t.next_ptr t.last
      → F s.next_ptr s.last
  back F s t m h = subst (λ p. F s.next_ptr p) m.last (subst (λ k. F k t.last) m.next_ptr h)

  IsMerged-trans : (s t u : Index B) → IsMerged s t → IsMerged t u → IsMerged s u
  IsMerged-trans s t u m n = record {
    last = n.last ∙ m.last;
    next_ptr = n.next_ptr ∙ m.next_ptr;
    threshold = n.threshold ∙ m.threshold;
    heap = subst (λ p. u.heap p ≡ t.heap p) m.last n.heap ∙ m.heap;
    in_segments = back (λ k p. All (IsClosed k p) u.segments) s t m n.in_segments;
  }

  -- The levels that the loop returns, with the index.
  abbrev IsDone : Index B → List (List (Option ℕ)) × Index B → Type 0
  IsDone s r = IsMerged s r.1 × AreEntries (IsClosed s.next_ptr s.last) r.0

  merge_levels-IsDone :
      (fuel amount : ℕ) (ls : List (List (Option ℕ))) (s : Index B)
      (r : List (List (Option ℕ)) × Index B)
      → AreEntries (IsClosed s.next_ptr s.last) ls
      → All (IsClosed s.next_ptr s.last) s.segments
      → merge_levels B rand fuel amount ls s ≡ some r
      → IsDone s r
  unfolding merge_levels
  merge_levels-IsDone fuel amount [] s r h g q =
      subst (IsDone s) (some-injective _ _ q) (
        record { last = refl; next_ptr = refl; threshold = refl; heap = refl; in_segments = g },
        tt,
      )
  merge_levels-IsDone zero amount (l ∷ ls) s r h g q = absurd (none≢some q)
  merge_levels-IsDone (suc fuel) amount (l ∷ ls) s r h g q = elim (Bool-cases (amount == 0)) [
    | inl z ↦
        subst (IsDone s) (some-injective _ _ (rw (merge_levels, z) at q)) (
          record { last = refl; next_ptr = refl; threshold = refl; heap = refl; in_segments = g },
          h,
        )
    | inr z ↦
        let done = scan B rand l (start B rand amount s) in
        let next = push_next done.1.inserted ls in
        let t = commit B rand done.1 s in
        let k = scan-IsScanned B rand s.next_ptr s.last l (start B rand amount s) h.0 tt in
        let m = IsMerged-commit done.1 s k.kept k.inserted g in
        let Closed = IsClosed s.next_ptr s.last in
        let pushed = AreEntries-push_next B rand Closed done.1.inserted ls k.inserted h.1 in
        elim (Option-cases (merge_levels B rand fuel done.1.amount next t)) [
          | inl o ↦ absurd (none≢some (rw (merge_levels, z, o) at q))
          | inr (u, o) ↦
              let (n, v) =
                merge_levels-IsDone fuel done.1.amount next t u
                  (along (λ i p. AreEntries (IsClosed i p) next) s t m pushed)
                  (along (λ i p. All (IsClosed i p) t.segments) s t m m.in_segments) o in
              subst (IsDone s) (some-injective _ _ (rw (merge_levels, z, o) at q)) (
                IsMerged-trans s t u.1 m n,
                (k.entries, back (λ i p. AreEntries (IsClosed i p) u.0) s t m v),
              )
        ]
  ]

  merge-IsMerged :
      (amount : ℕ) (s s' : Index B)
      → IsApart B rand s
      → merge B rand amount s ≡ some s'
      → IsMerged s s' × AreEntries (IsClosed s.next_ptr s.last) s'.levels
  unfolding merge
  merge-IsMerged amount s s' a q =
      elim (Option-cases (merge_levels B rand (merge_fuel s.levels) amount s.levels s)) [
        | inl o ↦ absurd (none≢some (rw (merge, o) at q))
        | inr (r, o) ↦
            let (m, v) =
              merge_levels-IsDone (merge_fuel s.levels) amount s.levels s r a.in_levels
                a.in_segments o in
            subst (λ t. IsMerged s t × AreEntries (IsClosed s.next_ptr s.last) t.levels)
              (some-injective _ _ (rw (merge, o) at q))
              (
                record {
                  last = m.last;
                  next_ptr = m.next_ptr;
                  threshold = m.threshold;
                  heap = m.heap;
                  in_segments = m.in_segments;
                },
                AreEntries-drop_null B rand (IsClosed s.next_ptr s.last) r.0 v,
              )
      ]

  -- A last segment that is sound and has room stays so, and stays apart from the others.
  pub merge-IsReady :
      (amount : ℕ) (s s' : Index B)
      → IsApart B rand s
      → IsReady B rand s
      → merge B rand amount s ≡ some s'
      → IsApart B rand s' × IsReady B rand s'
  merge-IsReady amount s s' a r q =
      let (m, v) = merge-IsMerged amount s s' a q in
      let same : s'.heap s'.last ≡ s.heap s.last =
        subst (λ p. s'.heap p ≡ s.heap s.last) (sym m.last) m.heap in
      let allocated = along (λ k p. p < k) s s' m a.allocated in
      (
        record {
          allocated = allocated;
          in_levels = along (λ k p. AreEntries (IsClosed k p) s'.levels) s s' m v;
          in_segments = along (λ k p. All (IsClosed k p) s'.segments) s s' m m.in_segments;
        },
        record {
          allocated = allocated;
          room =
              subst (λ (t : Segment B). Segment.size B t < s'.threshold) (sym same)
                (subst (λ n. Segment.size B (s.heap s.last) < n) (sym m.threshold) r.room);
          bounded = subst (λ n. n < size_mod) (sym m.threshold) r.bounded;
          sound = subst (λ (t : Segment B). B.IsSound t.index) (sym same) r.sound;
        },
      )
