-- ===== src/Tests.antt =====
-- Witnesses and runs over the exhaustive faiss index of Samples.
mod Segments
mod Coordinator
mod Handler
mod Files
mod Writer
mod Searcher
mod EtcdClient
mod Library
mod Publishing
mod Finding
mod Executor
mod Metrics
mod Config
mod Serving
mod Discovering
mod Clients
mod Index
mod Callbacks
use vecodex.Prelude.{
  ℕ, zero, suc, ◌+◌, ◌%◌, ◌≤◌, ◌<◌, ◌≡◌, ◌≢◌, ◌↔◌, ◌⊎◌, refl, Bool, true, false, Option, none, some,
  List, [], ◌∷◌, ◌++◌, map, Key, nat_key, Order, nat_order, lookup, has_key, insert, member,
  include, length, take, min, arith, All, ℕ_discrete, if◌then◌else◌, ◌==◌,
}
use vecodex.Samples.{flat, flat-Exhaustive}
use vecodex.FaissIndex.{
  FaissIndex, create, register, register_all, add_batch, erase_one, erase_batch, live_entries,
  live_hits, insert_hit, sort_hits, externals, single_search, size, size_mod, merge_from_other,
}
use vecodex.FaissIndex.Validity.{IsValid}
use vecodex.FaissIndex.History.{
  Call, adds, erases, merges, step, run, all_added, run-create-IsValid,
}
use vecodex.FaissIndex.Sorting.{IsAscending}
use vecodex.FaissIndex.Soundness.{IsLive, dists}
use vecodex.FaissIndex.Completeness.{run-single_search}
use vecodex.FaissIndex.Erasure.{AddedOnce, single_search-erase_batch}
use vecodex.FaissIndex.Sizes.{add_erase, size-add_erase_twice}

abbrev two_calls : List (Call flat ℕ)
two_calls = adds ((7, 5) ∷ (8, 9) ∷ (9, 1) ∷ []) ∷ erases (8 ∷ []) ∷ []

abbrev sample : FaissIndex flat ℕ
sample = run flat two_calls (create flat)

run-create-IsValid_example : IsValid flat (7 ∷ 8 ∷ 9 ∷ []) sample
run-create-IsValid_example = run-create-IsValid flat two_calls

run-single_search_example :
    (out : List (ℕ × ℕ)) × (single_search flat 2 4 sample ≡ some out)
    × All (IsLive flat sample) out
    × IsAscending (dists flat out)
    × (min 2 (length (live_entries sample.erased sample.inv_ids)) ≤ length out)
    × (length out ≤ 2)
run-single_search_example = run-single_search flat flat-Exhaustive two_calls 2 4

search_run : single_search flat 2 4 sample ≡ some ((7, 1) ∷ (9, 3) ∷ [])
unfolding single_search run create add_batch erase_batch register insert lookup include member
    has_key ℕ_discrete
search_run = refl

abbrev added_sample : FaissIndex flat ℕ
added_sample = run flat (adds ((7, 5) ∷ (8, 9) ∷ []) ∷ []) (create flat)

added_once : AddedOnce flat added_sample
unfolding run create add_batch register_all insert lookup ℕ_discrete
added_once p q i h k = ground arith

single_search-erase_batch_example :
    (out : List (ℕ × ℕ)) × (single_search flat 2 4 (erase_batch flat (8 ∷ []) added_sample)
      ≡ some out)
    × All (λ r. r.0 ≢ 8) out
unfolding member ℕ_discrete
single_search-erase_batch_example =
    single_search-erase_batch flat (7 ∷ 8 ∷ []) added_sample
      (run-create-IsValid flat (adds ((7, 5) ∷ (8, 9) ∷ []) ∷ [])) added_once (8 ∷ []) 8 refl 2 4

-- Two additions and erasures of one identifier in an empty index: the size is the largest `size_t`.
size-add_erase_twice_example :
    let s' = add_erase flat 7 6 (add_erase flat 7 5 (create {IdType = ℕ} flat)) in
    (length (live_entries s'.erased s'.inv_ids)
      ≡ length (live_entries (create {IdType = ℕ} flat).erased (create {IdType = ℕ} flat).inv_ids))
    × ((size flat s' + 1) % size_mod ≡ size flat (create {IdType = ℕ} flat))
unfolding create has_key run
size-add_erase_twice_example =
    size-add_erase_twice flat [] (create flat) 7 5 6 (run-create-IsValid flat []) refl (omega arith)
