-- ===== src/Writer/Publishing/Informing.antt =====
-- indexUpdateCallback: what the storage has when the searchers are told.
use vecodex.Prelude.{
  ℕ, ◌<◌, ◌≡◌, refl, ◌∙◌, ◌+◌, true, false, some, List, map, Key, nat_key, member, IsDistinct, All,
}
use vecodex.Binary.{Binary}
use vecodex.BaseIndex.{IBaseIndex}
use vecodex.Numerals.{bit_limit}
use vecodex.Segment.Files.{SegmentPtr}
use vecodex.EtcdClient.{Text, Server, list_searcher_hosts}
use vecodex.Coordinator.Handler.{set_shard}
use vecodex.Searcher.{UpdateRequest, answer, count_of}
use vecodex.StorageClient.{S3, Credentials, make_bucket_name}
use vecodex.StorageClient.Transferring.{IsStorage, session}
use vecodex.Writer.Publishing.{Searchers, CallbackState, send_updates, index_update_callback}
use vecodex.Writer.Publishing.Storing.{
  id_of, IsPublishable, IsPublishable-limit, member-All, All-both, IsStored, withdraw_lem,
  publish_lem,
}

module _ {IdType Vec Dist : Type 0} {Flat Hnsw : IBaseIndex IdType Vec Dist} where
  -- The request that every searcher of the shard is sent.
  abbrev pub request_of : Text → Text → List ℕ → List (SegmentPtr Flat Hnsw) → UpdateRequest Text
  request_of i s ids segs = record {
    index_id = i;
    shard_id = s;
    added = map id_of segs;
    deleted = ids;
  }

module _ (S : S3) (hash : Text → ℕ) (storage : IsStorage S) (c : Credentials) (i : Text)
    {IdType Vec Dist : Type 0} {Flat Hnsw : IBaseIndex IdType Vec Dist} (flat : Binary Flat.Base)
    (hnsw : Binary Hnsw.Base) ⦃e : Key Text⦄
    (accepts : (k : Text) (v : List ℕ) (st : S.State)
      → (S.put_object c (make_bucket_name hash i) k v st).0 ≡ true) where
  -- If the writer has logged in, the storage takes every object of the bucket and etcd lists the hosts
  -- of the shard, the callback for segments that can be written, with distinct ids none of which is
  -- deleted, tells the hosts one after the other, up to the first that fails, of the ids added and
  -- deleted; and whether a host fails or not, the storage then has every added segment as
  -- SerializeSegment writes it, under its id.
  pub index_update_callback_lem :
      (N : Searchers) (E : Server) (etcd : E.State) (ids : List ℕ)
      (segs : List (SegmentPtr Flat Hnsw)) (s : Text) (hosts : List Text) (w : CallbackState S N)
      → All (IsPublishable flat hnsw) segs
      → IsDistinct (map id_of segs)
      → All (λ d. d < bit_limit 64) ids
      → All (λ t. member (id_of t) ids ≡ false) segs
      → list_searcher_hosts E etcd i (some s) ≡ some hosts
      → (w' : CallbackState S N) × (index_update_callback flat hnsw S hash N E
            (session c)
            etcd
            ids
            segs
            i
            s
            w
          ≡ answer ((send_updates N hosts (request_of i s ids segs) w.searchers).0, w'))
        × (w'.searchers ≡ (send_updates N hosts (request_of i s ids segs) w.searchers).1)
        × All (IsStored S hash c i flat hnsw w'.storage) segs
  unfolding index_update_callback
  index_update_callback_lem N E etcd ids segs s hosts w publishable distinct small apart listed =
      let (files, st, p, kept, _) =
        publish_lem S hash storage c i flat hnsw accepts segs w.files w.storage publishable
          distinct in
      let (st', p', same) = withdraw_lem S hash storage c i ids st small in
      let alone =
        All-both (IsPublishable flat hnsw) (λ t. member (id_of t) ids ≡ false)
          (λ t. (id_of t < bit_limit 64) × All (λ d. ¬ (d ≡ id_of t)) ids) segs
          (λ t v m. (IsPublishable-limit flat hnsw t v, member-All (id_of t) ids m)) publishable
          apart in
      (
        record w {
          files = files;
          storage = st';
          callback_calls_count =
              set_shard i s (count_of i s w.callback_calls_count + 1) w.callback_calls_count;
          searchers = (send_updates N hosts (request_of i s ids segs) w.searchers).1;
        },
        rw (index_update_callback, p, p', listed) refl,
        refl,
        All-both (IsStored S hash c i flat hnsw st)
            (λ t. (id_of t < bit_limit 64) × All (λ d. ¬ (d ≡ id_of t)) ids)
            (IsStored S hash c i flat hnsw st') segs
            (λ t v m. (v.0, v.1, same (id_of t) m.0 m.1 ∙ v.2)) kept alone,
      )
