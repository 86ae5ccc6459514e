-- ===== src/Searcher/Fetching.antt =====
-- The storage of ProcessUpdateRequest: a segment is fetched into a file and read from it, and what the
-- writer publishes is what a searcher takes in.
use vecodex.Prelude.{
  Bool, true, false, ℕ, ◌≡◌, refl, ap, ◌∙◌, ◌>>=◌, ◌<◌, Option, none, some, List, [], ◌∷◌, map, Key,
  nat_key, lookup, member, append_nil, IsDistinct, All,
}
use vecodex.Binary.{Binary}
use vecodex.BaseIndex.{IBaseIndex}
use vecodex.Numerals.{bit_limit, decimal}
use vecodex.Segment.Files.{
  SegmentPtr, null, flat_segment, hnsw_segment, serialize_segment, deserialize_segment,
  deserialize_segment-serialize_segment,
}
use vecodex.Coordinator.Handler.{shards_of}
use vecodex.EtcdClient.{Text, Server, list_searcher_hosts}
use vecodex.StorageClient.{S3, StorageClient, Credentials, make_bucket_name, get_object}
use vecodex.StorageClient.Transferring.{IsStorage, session, get_object-stored}
use vecodex.Writer.Publishing.{Searchers, CallbackState, send_updates, index_update_callback}
use vecodex.Writer.Publishing.Storing.{id_of, IsPublishable, IsStored}
use vecodex.Writer.Publishing.Informing.{request_of, index_update_callback_lem}
use vecodex.Searcher.{SearcherOps, SearcherImpl, answer, exception, crash, process_update_request}
use vecodex.Searcher.Updating.{
  entry_after, push_each, erase_each, AreFetched, process_update_request_lem,
}

module _ {IdType Vec Dist : Type 0} {Flat Hnsw : IBaseIndex IdType Vec Dist}
    (flat : Binary Flat.Base) (hnsw : Binary Hnsw.Base) (S : S3) (hash : Text → ℕ)
    ⦃e : Key Text⦄ where
  -- The body of the loop over `added` up to pushSegment, in a working directory that has no file of
  -- this name; the file is removed again. `none` is a file that is missing or too short.
  unfoldable pub fetch_segment : StorageClient → S.State → Text → ℕ → Option (SegmentPtr Flat Hnsw)
  unfolding get_object deserialize_segment
  fetch_segment client st i id = elim (get_object S hash client i (decimal id) [] st) [
    | exception ↦ none
    | crash ↦ none
    | answer r ↦ elim (lookup (decimal id) r.1) [
      | none ↦ none
      | some bytes ↦ deserialize_segment Flat Hnsw flat hnsw bytes >>= (λ p. some p.0)
    ]
  ]

  deserialize_whole :
      (s : SegmentPtr Flat Hnsw) (bytes : List ℕ)
      → IsPublishable flat hnsw s
      → serialize_segment Flat Hnsw flat hnsw s ≡ some bytes
      → deserialize_segment Flat Hnsw flat hnsw bytes ≡ some (s, [])
  deserialize_whole null bytes w h = absurd w
  deserialize_whole (flat_segment s) bytes w h =
      ap (deserialize_segment Flat Hnsw flat hnsw) (append_nil bytes)
      ∙ deserialize_segment-serialize_segment Flat Hnsw flat hnsw (flat_segment s) bytes [] w h
  deserialize_whole (hnsw_segment s) bytes w h =
      ap (deserialize_segment Flat Hnsw flat hnsw) (append_nil bytes)
      ∙ deserialize_segment-serialize_segment Flat Hnsw flat hnsw (hnsw_segment s) bytes [] w h

  fetch_segment-IsStored :
      (c : Credentials) (i : Text) (st : S.State) (s : SegmentPtr Flat Hnsw)
      → IsPublishable flat hnsw s
      → IsStored S hash c i flat hnsw st s
      → fetch_segment (session c) st i (id_of s) ≡ some s
  unfolding fetch_segment
  fetch_segment-IsStored c i st s w (bytes, written, kept) =
      let (p, q) = get_object-stored S hash c i (decimal (id_of s)) bytes [] st kept in
      rw (fetch_segment, p, q, deserialize_whole s bytes w written) refl

  module _ {Config DocId Query : Type 0} (O : SearcherOps Config DocId Query)
      (as_segment : SegmentPtr Flat Hnsw → O.Seg) where
    -- `fetch` of the handler; `as_segment` is how an index takes a pointer.
    abbrev pub fetch_from : StorageClient → S.State → Text → ℕ → Option O.Seg
    fetch_from client st i id = do s ← fetch_segment client st i id; some (as_segment s)

    AreFetched-IsStored :
        (c : Credentials) (i : Text) (st : S.State) (segs : List (SegmentPtr Flat Hnsw))
        → All (IsPublishable flat hnsw) segs
        → All (IsStored S hash c i flat hnsw st) segs
        → AreFetched O (fetch_from (session c) st i) (map id_of segs) (map as_segment segs)
    AreFetched-IsStored c i st [] w k = tt
    AreFetched-IsStored c i st (s ∷ segs) w k = (
      ap (λ o. o >>= (λ t. some (as_segment t))) (fetch_segment-IsStored c i st s w.0 k.0),
      AreFetched-IsStored c i st segs w.1 k.1,
    )

    pub process_update_request-index_update_callback :
        (storage : IsStorage S) (c : Credentials) (i s : Text) (N : Searchers) (E : Server)
        (etcd : E.State) (ids : List ℕ) (segs : List (SegmentPtr Flat Hnsw)) (hosts : List Text)
        (w : CallbackState S N) (x : O.Ix) (v : SearcherImpl Text O)
        → ((k : Text) (b : List ℕ) (st : S.State)
            → (S.put_object c (make_bucket_name hash i) k b st).0 ≡ true)
        → All (IsPublishable flat hnsw) segs
        → IsDistinct (map id_of segs)
        → All (λ d. d < bit_limit 64) ids
        → All (λ t. member (id_of t) ids ≡ false) segs
        → list_searcher_hosts E etcd i (some s) ≡ some hosts
        → lookup s (shards_of i v.shards) ≡ some x
        → (ok : Bool) × (w' : CallbackState S N) × (v' : SearcherImpl Text O)
          × (index_update_callback flat hnsw S hash N E (session c) etcd ids segs i s w
              ≡ answer (ok, w'))
          × (process_update_request O
                (fetch_from (session c) w'.storage)
                (request_of i s ids segs)
                v
              ≡ answer v')
          × ((j t : Text)
              → lookup t (shards_of j v'.shards)
                ≡ entry_after i s
                    (erase_each O ids (push_each O (map as_segment segs) x))
                    v.shards
                    j
                    t)
    process_update_request-index_update_callback storage c i s N E etcd ids segs hosts w x v accepts
          writable distinct small apart listed has_shard =
        let request = request_of i s ids segs in
        let (w', p, _, kept) =
          index_update_callback_lem S hash storage c i flat hnsw accepts N E etcd ids segs s hosts w
            writable distinct small apart listed in
        let (v', q, r) =
          process_update_request_lem O (fetch_from (session c) w'.storage) (map as_segment segs)
            request x v (AreFetched-IsStored c i w'.storage segs writable kept) has_shard in
        ((send_updates N hosts request w.searchers).0, w', v', p, q, r)
