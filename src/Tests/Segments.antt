-- ===== src/Tests/Segments.antt =====
-- Witnesses and runs of the index over segments.
use vecodex.Prelude.{
  ℕ, suc, ◌+◌, ◌^◌, ◌≤◌, ◌<◌, ◌≡◌, ◌≢◌, ◌⊎◌, refl, true, false, some, List, [], ◌∷◌, ◌++◌, map,
  nat_key, nat_order, lookup, has_key, insert, member, include, take, arith, All, ℕ_discrete,
  if◌then◌else◌, ◌==◌,
}
use vecodex.Samples.{flat}
use vecodex.BaseIndex.{IBaseIndex}
use vecodex.TopK.{SearchResult, result_order, result_less, collect, emplace, erase_last}
use vecodex.TopK.Sorting.{has, emplace_all, emplace_all-IsSorted, has-emplace_all}
use vecodex.FaissIndex.{create, add_batch, register, size, single_search}
use vecodex.FaissIndex.Interface.{faiss_base}
use vecodex.FaissIndex.Erasure.{erase_batch_twice}
use vecodex.Segment
use vecodex.Segment.{delete_batch}
use vecodex.Index.State.{
  Index, init, place, add_loop, create_last, storage_add, close_last, fill_last,
}
use vecodex.Index.Storage.{Scan, merge, commit, scan, start}
use vecodex.Index.Operations.{add, erase, search}
use vecodex.Index.Filling.{IsReady, Filled, add_loop_lem}
use vecodex.Index.Levels.{level_at, place_lem}
use vecodex.Index.Searching.{candidates, search_lem}
use vecodex.Index.Erasing.{is_in, erase_lem}
use vecodex.Index.Merging.{merge_total, count, count-commit}

abbrev pub base : IBaseIndex ℕ ℕ ℕ
base = faiss_base flat ℕ

-- A pseudo-random sequence without repetition.
abbrev pub rand : ℕ → ℕ
rand n = n + 100

abbrev vectors : List (ℕ × ℕ)
vectors = (1, 10) ∷ (2, 20) ∷ (3, 30) ∷ (4, 40) ∷ (5, 50) ∷ []

abbrev pub empty_index : Index base
empty_index = init base rand 2 true

abbrev filled : Index base
filled = (add base rand vectors empty_index).1

pub empty_index-IsReady : IsReady base rand empty_index
unfolding init create size create_last
empty_index-IsReady = record {
  allocated = omega arith;
  room = omega arith;
  bounded = omega arith;
  sound = omega arith;
}

add_loop_lem_example : Filled base rand [] empty_index (add_loop base rand 5 vectors [] empty_index)
add_loop_lem_example =
    add_loop_lem base rand 5 vectors [] empty_index (omega arith) empty_index-IsReady tt

place_lem_example :
    (level : ℕ) × (5 ≤ 2 ^ suc level)
    × ((level ≡ 0) ⊎ (2 ^ level < 5))
    × ((j : ℕ)
        → level_at j (place 5 9 [])
          ≡ (if level == j then level_at j [] ++ some 9 ∷ [] else level_at j []))
place_lem_example = place_lem 5 9 [] (omega arith)

merge_total_example : (s' : Index base) × (merge base rand 200 filled ≡ some s')
merge_total_example = merge_total base rand 200 filled

-- Two segments of one vector, pointers 0 and 1, in the lowest level.
abbrev two_segments : Index base
two_segments = (add base rand ((1, 10) ∷ (2, 20) ∷ []) (init base rand 1 false)).1

abbrev merged : Scan base
merged = (scan base rand (some 0 ∷ some 1 ∷ []) (start base rand 200 two_segments)).1

merged_ids : All (λ id. (merged.heap 0).seg_id ≢ id) merged.erased
unfolding add init size create_last add_loop create add_batch register insert lookup ℕ_discrete scan
    fill_last close_last storage_add Segment.add_vector_batch
merged_ids = (omega arith, (omega arith, tt))

-- The merged segment is listed twice.
count-commit_example :
    count base rand 0 (commit base rand merged two_segments).segments
    ≡ count base rand 0 two_segments.segments + count base rand 0 merged.inserted
count-commit_example = count-commit base rand merged two_segments 0 merged_ids

listed_twice : (commit base rand merged two_segments).segments ≡ 0 ∷ 0 ∷ []
unfolding add init size create_last add_loop create add_batch register insert lookup ℕ_discrete scan
    fill_last close_last storage_add commit Segment.add_vector_batch
listed_twice = refl

erase_lem_example :
    ((erase base rand (1 ∷ []) filled).heap 0 ≡ (
      if is_in 0 (filled.segments ++ filled.last ∷ [])
      then delete_batch base (1 ∷ []) (filled.heap 0)
      else filled.heap 0))
    × ((erase base rand (1 ∷ []) filled).segments ≡ filled.segments)
    × ((erase base rand (1 ∷ []) filled).last ≡ filled.last)
    × ((erase base rand (1 ∷ []) filled).levels ≡ filled.levels)
erase_lem_example = erase_lem base rand (erase_batch_twice flat) (1 ∷ []) filled 0

-- Five vectors in segments of two, with no merge: two full segments and one vector in the last.
abbrev unmerged : Index base
unmerged = (add base rand vectors (init base rand 2 false)).1

program : Unit {0}
unfolding add init size create_last add_loop create add_batch register insert lookup ℕ_discrete
    fill_last close_last storage_add Segment.add_vector_batch search single_search has_key include
    member candidates result_order result_less Segment.search_query collect emplace erase_last
program = tt

unmerged_segments : unmerged.segments ≡ 0 ∷ 1 ∷ []
unfolding program
unmerged_segments = refl

unmerged_search : search base rand 2 33 unmerged ≡ some (3 ∷ 4 ∷ [])
unfolding program
unmerged_search = refl

abbrev candidate_list : List (SearchResult ℕ ℕ)
candidate_list =
    record { dist = 13; id = 2 }
    ∷ record { dist = 23; id = 1 }
    ∷ record { dist = 3; id = 3 }
    ∷ record { dist = 7; id = 4 }
    ∷ record { dist = 17; id = 5 }
    ∷ []

candidates_run :
    candidates base rand 2 33 unmerged.heap (unmerged.segments ++ unmerged.last ∷ [])
    ≡ some candidate_list
unfolding program
candidates_run = refl

has_sorted : (a : SearchResult ℕ ℕ) → has a (emplace_all candidate_list []) ≡ has a candidate_list
has_sorted a = ground (arith, has-emplace_all a candidate_list [])

search_lem_example :
    search base rand 2 33 unmerged ≡ some (map (λ r. r.id) (take 2 (emplace_all candidate_list [])))
search_lem_example =
    search_lem base rand 2 33 unmerged candidate_list (emplace_all candidate_list []) candidates_run
      (emplace_all-IsSorted candidate_list [] tt) has_sorted
