-- ===== src/Index/Operations.antt =====
-- The operations of vecodex::Index (index/include/Index.h). The lock of `segments_m_` is held
-- through each of them: they are steps.
use vecodex.Prelude.{
  ℕ, suc, Bool, true, false, Option, none, some, List, [], ◌∷◌, ◌++◌, map, Key, Order, length, ◌==◌,
  if◌then◌else◌,
}
use vecodex.BaseIndex.{IBaseIndex}
use vecodex.Segment
use vecodex.Segment.{Segment}
use vecodex.TopK.{SearchResult, collect, result_order}
use vecodex.Index.State.{
  Index, Status, finished, empty_batch, out_of_fuel, update, add_loop, call_back, storage_add,
}
use vecodex.Index.Storage.{is_empty, merge}

-- The amount of vectors that Index::add lets `merge` move.
abbrev pub merge_amount : ℕ
merge_amount = 200

module _ {IdType Vec Dist : Type 0} (B : IBaseIndex IdType Vec Dist) ⦃e : Key IdType⦄
    (rand : ℕ → ℕ) where
  unfoldable pub merge_if_enabled : Index B → Status × Index B
  unfolding merge
  merge_if_enabled s =
      if s.enable_merge
      then elim (merge B rand merge_amount s) [ none ↦ (out_of_fuel, s) | some s' ↦ (finished, s') ]
      else (finished, s)

  -- What follows the loop of `add`: an exception of the loop skips it.
  unfoldable pub finish_add : Status → List ℕ → Index B → Status × Index B
  unfolding is_empty call_back merge_if_enabled
  finish_add finished inserted s =
      merge_if_enabled (if is_empty inserted then s else call_back B rand [] inserted s)
  finish_add empty_batch inserted s = (empty_batch, s)
  finish_add out_of_fuel inserted s = (out_of_fuel, s)

  unfoldable pub add : List (IdType × Vec) → Index B → Status × Index B
  unfolding add_loop finish_add
  add vs s =
      let (status, inserted, s') = add_loop B rand (length vs) vs [] s in
      finish_add status inserted s'

  -- `segments_[i]->deleteBatch(n, ids)` for the pointers of a list.
  unfoldable pub delete_in : List IdType → List ℕ → (ℕ → Segment B) → ℕ → Segment B
  delete_in is [] heap = heap
  delete_in is (p ∷ ps) heap = delete_in is ps (update heap p (Segment.delete_batch B is (heap p)))

  unfoldable pub erase : List IdType → Index B → Index B
  unfolding delete_in
  erase is s = record s { heap = delete_in is (s.segments ++ s.last ∷ []) s.heap }

  unfoldable pub push_segment : Segment B → Index B → Index B
  unfolding storage_add call_back
  push_segment segment s =
      let p = s.next_ptr in
      let s' =
        storage_add B rand p (record s { next_ptr = suc p; heap = update s.heap p segment }) in
      call_back B rand [] (p ∷ []) (record s' { segments = s'.segments ++ p ∷ [] })

  unfoldable pub has_segment : ℕ → (ℕ → Segment B) → List ℕ → Bool
  has_segment id heap [] = false
  has_segment id heap (p ∷ ps) =
      let rest = has_segment id heap ps in if (heap p).seg_id == id then true else rest

  -- eraseSegment: the segment that `find_if` finds is not erased.
  unfoldable pub erase_segment : ℕ → Index B → Bool × Index B
  unfolding has_segment
  erase_segment id s = (has_segment id s.heap s.segments, s)

  -- The callback itself is the log of its calls.
  abbrev pub set_update_callback : Index B → Index B
  set_update_callback s = record s { has_callback = true }

  module _ ⦃d : Order Dist⦄ ⦃o : Order IdType⦄ where
    abbrev pub as_results : List (IdType × Dist) → List (SearchResult Dist IdType)
    as_results = map (λ r. record { dist = r.1; id = r.0 })

    -- The loop over the segments; `none` is an exception of a segment.
    unfoldable pub search_segments :
        ℕ
        → Vec
        → (ℕ → Segment B)
        → List ℕ
        → List (SearchResult Dist IdType)
        → Option (List (SearchResult Dist IdType))
    unfolding collect
    search_segments k q heap [] kth_stat = some kth_stat
    search_segments k q heap (p ∷ ps) kth_stat = elim (Segment.search_query B k q (heap p)) [
      | none ↦ none
      | some r ↦ search_segments k q heap ps (collect k (as_results r) kth_stat)
    ]

    unfoldable pub search : ℕ → Vec → Index B → Option (List IdType)
    unfolding search_segments
    search k q s = elim (search_segments k q s.heap (s.segments ++ s.last ∷ []) []) [
      | none ↦ none
      | some kth_stat ↦ some (map (λ r. r.id) kth_stat)
    ]
