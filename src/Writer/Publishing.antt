-- ===== src/Writer/Publishing.antt =====
-- WriterImpl::indexUpdateCallback (app/src/Writer.cpp): what a merge tells the storage and the
-- searchers. The task runs under the lock of the writer; the segments are those that the pointers lead
-- to when it runs.
pub mod Storing
pub mod Informing
use vecodex.Prelude.{
  ℕ, ◌+◌, Bool, true, false, Option, none, some, List, [], ◌∷◌, Key, insert, remove, if◌then◌else◌,
}
use vecodex.Binary.{Binary}
use vecodex.BaseIndex.{IBaseIndex}
use vecodex.Numerals.{decimal}
use vecodex.Segment.Files.{SegmentPtr, null, flat_segment, hnsw_segment, serialize_segment}
use vecodex.Coordinator.Handler.{set_shard}
use vecodex.EtcdClient.{Text, Server, list_searcher_hosts}
use vecodex.Searcher.{UpdateRequest, Outcome, answer, exception, crash, and_then, count_of}
use vecodex.StorageClient.{S3, StorageClient, Files, put_object, del_object}

-- The searchers, as SearcherClient::updateIndex reaches them; `false` is its exception.
pub record Searchers : Type 1 where
  pub World : Type 0
  pub update_index : Text → UpdateRequest Text → World → Bool × World

pub record CallbackState (S : S3) (N : Searchers) : Type 0 where
  pub files : Files
  pub storage : S.State
  pub searchers : N.World
  pub callback_calls_count : List (Text × List (Text × ℕ))

-- `getID`; `none` is a call through a null pointer.
abbrev pub get_id :
    {IdType Vec Dist : Type 0} {Flat Hnsw : IBaseIndex IdType Vec Dist}
    → SegmentPtr Flat Hnsw
    → Option ℕ
get_id null = none
get_id (flat_segment s) = some s.seg_id
get_id (hnsw_segment s) = some s.seg_id

module _ (N : Searchers) where
  -- The loop over the hosts: an exception ends it.
  unfoldable pub send_updates : List Text → UpdateRequest Text → N.World → Bool × N.World
  send_updates [] request world = (true, world)
  send_updates (host ∷ hosts) request world =
      let (ok, world') = N.update_index host request world in
      let rest = send_updates hosts request world' in if ok then rest else (false, world')

module _ (S : S3) (hash : Text → ℕ) where
  -- The loop over `ids`; the result of delObject is ignored.
  unfoldable pub withdraw : StorageClient → Text → List ℕ → S.State → Outcome S.State
  withdraw client i [] st = answer st
  withdraw client i (id ∷ ids) st =
      and_then (del_object S hash client i (decimal id) st) (λ r. withdraw client i ids r.1)

  -- The body of the loop over `segs`: the file is written, sent and removed.
  unfoldable pub publish_one :
      ⦃e : Key Text⦄
      → StorageClient
      → Text
      → ℕ
      → List ℕ
      → Files
      → S.State
      → Outcome (Files × S.State)
  publish_one client i id bytes files st =
      let added_filename = decimal id in
      let written = insert added_filename bytes files in
      and_then (put_object S hash client i added_filename written st)
        (λ r. answer (remove added_filename written, r.1))

module _ {IdType Vec Dist : Type 0} {Flat Hnsw : IBaseIndex IdType Vec Dist}
    (flat : Binary Flat.Base) (hnsw : Binary Hnsw.Base) (S : S3) (hash : Text → ℕ)
    ⦃e : Key Text⦄ where
  -- The loop over `segs`, with `added`.
  unfoldable pub publish :
      StorageClient
      → Text
      → List (SegmentPtr Flat Hnsw)
      → Files
      → S.State
      → Outcome (List ℕ × Files × S.State)
  unfolding publish_one serialize_segment
  publish client i [] files st = answer ([], files, st)
  publish client i (seg ∷ segs) files st = elim (get_id seg) [
    | none ↦ crash
    | some id ↦ elim (serialize_segment Flat Hnsw flat hnsw seg) [
      | none ↦ crash
      | some bytes ↦
          and_then (publish_one S hash client i id bytes files st)
            (λ r. and_then (publish client i segs r.0 r.1) (λ q. answer (id ∷ q.0, q.1, q.2)))
    ]
  ]

  -- The task. In the answer, `false` is an exception of etcd or of a searcher: it leaves the thread
  -- of the pool, and the process ends. A crash leaves no state.
  unfoldable pub index_update_callback :
      (N : Searchers) (E : Server)
      → StorageClient
      → E.State
      → List ℕ
      → List (SegmentPtr Flat Hnsw)
      → Text
      → Text
      → CallbackState S N
      → Outcome (Bool × CallbackState S N)
  unfolding publish withdraw send_updates
  index_update_callback N E client etcd ids segs i s w =
      let counts = set_shard i s (count_of i s w.callback_calls_count + 1) w.callback_calls_count in
      and_then (publish client i segs w.files w.storage) (λ r.
        and_then (withdraw S hash client i ids r.2) (λ storage.
          let stored : CallbackState S N = record w {
            files = r.1;
            storage = storage;
            callback_calls_count = counts;
          } in
          elim (list_searcher_hosts E etcd i (some s)) [
            | none ↦ answer (false, stored)
            | some hosts ↦
                let request : UpdateRequest Text = record {
                  index_id = i;
                  shard_id = s;
                  added = r.0;
                  deleted = ids;
                } in
                let sent = send_updates N hosts request w.searchers in
                answer (sent.0, record stored { searchers = sent.1 })
          ]))
