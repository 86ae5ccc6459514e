-- ===== src/Searcher/Finding.antt =====
-- From the writer's callback to a search: what a searcher finds after an update.
use vecodex.Prelude.{
  ℕ, ◌<◌, ◌≡◌, ap, ◌∙◌, Bool, true, false, some, List, [], ◌∷◌, ◌++◌, map, Key, nat_key, Order,
  lookup, member, IsDistinct, All, take,
}
use vecodex.Binary.{Binary}
use vecodex.BaseIndex.{IBaseIndex}
use vecodex.Numerals.{bit_limit}
use vecodex.Segment.{Segment}
use vecodex.Segment.Files.{SegmentPtr, null, flat_segment, hnsw_segment}
use vecodex.TopK.{SearchResult, result_order}
use vecodex.TopK.Sorting.{has, IsSorted}
use vecodex.Index.State.{Index}
use vecodex.Index.History.{IsStable}
use vecodex.Coordinator.Handler.{shards_of}
use vecodex.EtcdClient.{Text, Server, list_searcher_hosts}
use vecodex.StorageClient.{S3, Credentials, make_bucket_name}
use vecodex.StorageClient.Transferring.{IsStorage, session}
use vecodex.Writer.Publishing.{Searchers, CallbackState, index_update_callback}
use vecodex.Writer.Publishing.Storing.{id_of, IsPublishable}
use vecodex.Writer.Publishing.Informing.{request_of}
use vecodex.Searcher.{
  SearcherImpl, answer, as_outcome, process_search_request, process_update_request,
}
use vecodex.Searcher.Updating.{push_each, erase_each, entry_after_here}
use vecodex.Searcher.Fetching.{fetch_from, process_update_request-index_update_callback}
use vecodex.Searcher.Indexes.{library, answers, segments_of-push_each, search-answers}

module _ {IdType Vec Dist : Type 0} (B : IBaseIndex IdType Vec Dist) where
  -- The segment behind a pointer, of either kind; no segment that is published is a null pointer.
  abbrev pub segment_of : Segment B → SegmentPtr B B → Segment B
  segment_of default null = default
  segment_of default (flat_segment s) = s
  segment_of default (hnsw_segment s) = s

module _ {IdType Vec Dist : Type 0} (B : IBaseIndex IdType Vec Dist) (flat hnsw : Binary B.Base)
    (S : S3) (hash : Text → ℕ) ⦃e : Key Text⦄ ⦃i : Key IdType⦄ ⦃d : Order Dist⦄ ⦃o : Order IdType⦄
    (rand : ℕ → ℕ) (default : Segment B) where
  process_search_request-shard :
      (index shard : Text) (k : ℕ) (q : Vec) (x : Index B) (found : List IdType)
      (v : SearcherImpl Text (library B rand))
      → lookup shard (shards_of index v.shards) ≡ some x
      → (library B rand).search q k x ≡ some found
      → (process_search_request
          (library B rand)
          (record { index_id = index; shard_id = some shard; k = k; vector_data = q })
          v).0
        ≡ answer found
  unfolding process_search_request
  process_search_request-shard index shard k q x found v h g =
      rw (process_search_request, h) (ap as_outcome g)

  -- Under the conditions of the writer's callback: a searcher over indexes of the library, whose shard
  -- has a stable index, takes in the update that the callback sends. Where no segment throws, it then
  -- answers any search of the shard with the first `k` of what the closed segments that it had, the
  -- segments that the writer published, and its last segment find.
  pub process_search_request-index_update_callback :
      (storage : IsStorage S) (c : Credentials) (index shard : Text) (N : Searchers) (E : Server)
      (etcd : E.State) (ids : List ℕ) (segs : List (SegmentPtr B B)) (hosts : List Text)
      (w : CallbackState S N) (x : Index B) (v : SearcherImpl Text (library B rand))
      → ((k : Text) (b : List ℕ) (st : S.State)
          → (S.put_object c (make_bucket_name hash index) k b st).0 ≡ true)
      → All (IsPublishable flat hnsw) segs
      → IsDistinct (map id_of segs)
      → All (λ n. n < bit_limit 64) ids
      → All (λ t. member (id_of t) ids ≡ false) segs
      → list_searcher_hosts E etcd index (some shard) ≡ some hosts
      → lookup shard (shards_of index v.shards) ≡ some x
      → IsStable B rand x
      → (ok : Bool) × (w' : CallbackState S N) × (v' : SearcherImpl Text (library B rand))
        × (index_update_callback flat hnsw S hash N E (session c) etcd ids segs index shard w
            ≡ answer (ok, w'))
        × (process_update_request
              (library B rand)
              (fetch_from flat hnsw S hash
                (library B rand)
                (segment_of B default)
                (session c)
                w'.storage)
              (request_of index shard ids segs)
              v
            ≡ answer v')
        × ((k : ℕ) (q : Vec) (xs sorted : List (SearchResult Dist IdType))
            → answers B rand k q
                (map x.heap x.segments ++ (map (segment_of B default) segs ++ x.heap x.last ∷ []))
              ≡ some xs
            → IsSorted sorted
            → ((a : SearchResult Dist IdType) → has a sorted ≡ has a xs)
            → (process_search_request
                (library B rand)
                (record { index_id = index; shard_id = some shard; k = k; vector_data = q })
                v').0
              ≡ answer (map (λ r. r.id) (take k sorted)))
  process_search_request-index_update_callback storage c index shard N E etcd ids segs hosts w x v
        accepts writable distinct small apart listed has_shard stable =
      let O = library B rand in
      let published = map (segment_of B default) segs in
      let y = erase_each O ids (push_each O published x) in
      let (ok, w', v', p, q, r) =
        process_update_request-index_update_callback flat hnsw S hash O (segment_of B default)
          storage c index shard N E etcd ids segs hosts w x v accepts writable distinct small apart
          listed has_shard in
      (
        ok,
        w',
        v',
        p,
        q,
        λ k query xs sorted a s h.
            process_search_request-shard index shard k query y (map (λ t. t.id) (take k sorted)) v'
              (r index shard ∙ entry_after_here index shard y v.shards)
              (search-answers B rand k query y
                (map x.heap x.segments ++ (published ++ x.heap x.last ∷ [])) xs sorted
                (segments_of-push_each B rand published ids x stable) a s h),
      )
