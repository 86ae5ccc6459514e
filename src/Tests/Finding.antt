-- ===== src/Tests/Finding.antt =====
-- A search at a searcher that has taken in a published segment.
use vecodex.Prelude.{
  ℕ, ◌+◌, ◌≡◌, ◌∙◌, refl, Bool, true, some, List, [], ◌∷◌, ◌++◌, map, nat_key, nat_order, take,
  lookup, if_pos, arith,
}
use vecodex.FaissIndex.{create}
use vecodex.Samples.{flat}
use vecodex.Segment.{Segment}
use vecodex.TopK.{SearchResult, result_order}
use vecodex.TopK.Sorting.{has, IsSorted}
use vecodex.Index.State.{Index, init}
use vecodex.Index.History.{IsStable, run-init}
use vecodex.Coordinator.Handler.{shards_of, set_shard}
use vecodex.Coordinator.Handler.Updating.{lookup-set_shard}
use vecodex.EtcdClient.{Text}
use vecodex.StorageClient.Transferring.{session}
use vecodex.Writer.Publishing.{CallbackState, index_update_callback}
use vecodex.Writer.Publishing.Informing.{request_of}
use vecodex.Searcher.{SearcherImpl, answer, process_search_request, process_update_request}
use vecodex.Searcher.Fetching.{fetch_from}
use vecodex.Searcher.Indexes.{library, answers}
use vecodex.Searcher.Finding.{segment_of, process_search_request-index_update_callback}
use vecodex.Tests.EtcdClient.{text_key}
use vecodex.Tests.Files.{base, binary, pointer_fits}
use vecodex.Tests.Publishing.{
  memory, memory-IsStorage, credentials, hash, listener, server, before, segs, index, shard, apart,
  distinct, listed,
}

abbrev rand : ℕ → ℕ
rand n = n + 100

abbrev default : Segment base
default = record { seg_id = 0; index = create flat }

abbrev empty_index : Index base
empty_index = init base rand 2 true

empty_index-IsStable : IsStable base rand empty_index
empty_index-IsStable = (run-init base rand [] 2 true (omega arith) (omega arith) tt).0

abbrev serving : SearcherImpl Text (library base rand)
serving = record {
  shards = set_shard index shard empty_index [];
  requests_count = 0;
  updates_count = [];
}

serving_shard : lookup shard (shards_of index serving.shards) ≡ some empty_index
serving_shard =
    lookup-set_shard index shard shard empty_index [] ∙ if_pos (text_key.dec shard shard) refl _ _

process_search_request-index_update_callback_example :
    (ok : Bool) × (w' : CallbackState memory listener) × (v' : SearcherImpl Text
      (library base rand))
    × (index_update_callback binary binary memory hash listener server
          (session credentials)
          tt
          (3 ∷ [])
          segs
          index
          shard
          before
        ≡ answer (ok, w'))
    × (process_update_request
          (library base rand)
          (fetch_from binary binary memory hash
            (library base rand)
            (segment_of base default)
            (session credentials)
            w'.storage)
          (request_of index shard (3 ∷ []) segs)
          serving
        ≡ answer v')
    × ((k q : ℕ) (xs sorted : List (SearchResult ℕ ℕ))
        → answers base rand k q (
            map empty_index.heap empty_index.segments
            ++ (map (segment_of base default) segs ++ empty_index.heap empty_index.last ∷ []))
          ≡ some xs
        → IsSorted sorted
        → ((a : SearchResult ℕ ℕ) → has a sorted ≡ has a xs)
        → (process_search_request
            (library base rand)
            (record { index_id = index; shard_id = some shard; k = k; vector_data = q })
            v').0
          ≡ answer (map (λ r. r.id) (take k sorted)))
process_search_request-index_update_callback_example =
    process_search_request-index_update_callback base binary binary memory hash rand default
      memory-IsStorage credentials index shard listener server tt (3 ∷ []) segs ((104 ∷ []) ∷ [])
      before empty_index serving (λ k b st. refl) (pointer_fits, tt) (distinct, tt)
      (omega arith, tt) apart listed serving_shard empty_index-IsStable
