-- ===== src/Tests/Publishing.antt =====
-- A merge told to a storage in memory and to one searcher.
use vecodex.Prelude.{
  ℕ, ◌≡◌, ◌↔◌, refl, ◌∙◌, Bool, true, false, Option, none, some, List, [], ◌∷◌, nat_key, lookup,
  member, All, ite, if_pos, if_neg, arith, ℕ_discrete,
}
use vecodex.Segment.Files.{SegmentPtr}
use vecodex.Coordinator.Handler.{shards_of, set_shard}
use vecodex.Coordinator.Handler.Updating.{lookup-set_shard}
use vecodex.EtcdClient.{Text, Server, list_searcher_hosts}
use vecodex.StorageClient.{S3, Credentials, make_bucket_name}
use vecodex.StorageClient.Naming.{make_bucket_name_same}
use vecodex.StorageClient.Transferring.{IsStorage, session}
use vecodex.RpcClients.{searchers_of}
use vecodex.Writer.Publishing.{Searchers, CallbackState, index_update_callback}
use vecodex.Writer.Publishing.Storing.{id_of}
use vecodex.Writer.Publishing.Informing.{request_of}
use vecodex.Searcher.{SearcherOps, SearcherImpl, UpdateRequest, answer, process_update_request}
use vecodex.Searcher.Updating.{entry_after}
use vecodex.Searcher.Fetching.{fetch_from, process_update_request-index_update_callback}
use vecodex.Tests.EtcdClient.{text_key}
use vecodex.Tests.Files.{base, binary, pointer, pointer_fits}

abbrev Objects : Type 0
Objects = Text → Text → Option (List ℕ)

abbrev with_object : Text → Text → Option (List ℕ) → Objects → Objects
with_object b k v st b' k' =
    ite (text_key.dec b b') (ite (text_key.dec k k') v (st b' k')) (st b' k')

with_object_self : (b k : Text) (v : Option (List ℕ)) (st : Objects) → with_object b k v st b k ≡ v
with_object_self b k v st = if_pos (text_key.dec b b) refl _ _ ∙ if_pos (text_key.dec k k) refl _ _

with_object_other :
    (b k j : Text) (v : Option (List ℕ)) (st : Objects)
    → ¬ (k ≡ j)
    → with_object b k v st b j ≡ st b j
with_object_other b k j v st n =
    if_pos (text_key.dec b b) refl _ _ ∙ if_neg (text_key.dec k j) n _ _

abbrev pub memory : S3
memory = record {
  State = Objects;
  list_buckets = λ c st. true;
  put_object = λ c b k v st. (true, with_object b k (some v) st);
  get_object = λ c b k st. st b k;
  delete_object = λ c b k st. (true, with_object b k none st);
  create_bucket = λ c b st. (true, st);
}

pub memory-IsStorage : IsStorage memory
memory-IsStorage = record {
  get-put = λ c b k v st h. with_object_self b k (some v) st;
  get-put_other = λ c b k j v st n. with_object_other b k j (some v) st n;
  get-delete_other = λ c b k j st n. with_object_other b k j none st n;
}

abbrev pub credentials : Credentials
credentials = ([], [])

abbrev pub hash : Text → ℕ
hash name = 7

make_bucket_name_same_example :
    (make_bucket_name hash (97 ∷ []) ≡ make_bucket_name hash (98 ∷ []))
    ↔ (hash (97 ∷ []) ≡ hash (98 ∷ []))
make_bucket_name_same_example =
    make_bucket_name_same hash (97 ∷ []) (98 ∷ []) (omega arith) (omega arith)

bucket_run : make_bucket_name (λ name. 0x1f20) [] ≡ 48 ∷ 48 ∷ 48 ∷ 49 ∷ 102 ∷ 50 ∷ 48 ∷ []
unfolding make_bucket_name
bucket_run = refl

-- A searcher that keeps the requests.
abbrev pub listener : Searchers
listener =
    searchers_of (List (Text × UpdateRequest Text))
      (λ host world request. record { error_code = 0; response = tt })
      (λ host request world. (host, request) ∷ world)

abbrev pub server : Server
server = record {
  State = Unit {0};
  set = λ st key value. some st;
  rm = λ st key. some st;
  ls = λ st prefix. some ((prefix, 104 ∷ []) ∷ []);
}

abbrev pub before : CallbackState memory listener
before = record { files = []; storage = λ b k. none; searchers = []; callback_calls_count = [] }

abbrev pub segs : List (SegmentPtr base base)
segs = pointer ∷ []

abbrev pub index : Text
index = 97 ∷ []

abbrev pub shard : Text
shard = 115 ∷ []

pub apart : All (λ (t : SegmentPtr base base). member (id_of t) (3 ∷ []) ≡ false) segs
unfolding member ℕ_discrete
apart = (refl, tt)

pub distinct : member {K = ℕ} 12 [] ≡ false
unfolding member
distinct = refl

pub listed : list_searcher_hosts server tt index (some shard) ≡ some ((104 ∷ []) ∷ [])
unfolding list_searcher_hosts
listed = refl

-- An index is the list of its segments.
abbrev pointers : SearcherOps ℕ ℕ ℕ
pointers = record {
  Ix = List (SegmentPtr base base);
  Seg = SegmentPtr base base;
  create = λ config. some [];
  search = λ q k x. some [];
  push_segment = λ segment x. segment ∷ x;
  erase_segment = λ id x. x;
}

abbrev serving : SearcherImpl Text pointers
serving = record { shards = set_shard index shard [] []; requests_count = 0; updates_count = [] }

serving_shard : lookup shard (shards_of index serving.shards) ≡ some []
serving_shard =
    lookup-set_shard index shard shard [] [] ∙ if_pos (text_key.dec shard shard) refl _ _

process_update_request-index_update_callback_example :
    (ok : Bool) × (w' : CallbackState memory listener) × (v' : SearcherImpl Text pointers)
    × (index_update_callback binary binary memory hash listener server
          (session credentials)
          tt
          (3 ∷ [])
          segs
          index
          shard
          before
        ≡ answer (ok, w'))
    × (process_update_request pointers
          (fetch_from binary binary memory hash pointers (λ t. t) (session credentials) w'.storage)
          (request_of index shard (3 ∷ []) segs)
          serving
        ≡ answer v')
    × ((j t : Text)
        → lookup t (shards_of j v'.shards)
          ≡ entry_after index shard (pointer ∷ []) serving.shards j t)
process_update_request-index_update_callback_example =
    process_update_request-index_update_callback binary binary memory hash pointers (λ t. t)
      memory-IsStorage credentials index shard listener server tt (3 ∷ []) segs ((104 ∷ []) ∷ [])
      before [] serving (λ k b st. refl) (pointer_fits, tt) (distinct, tt) (omega arith, tt) apart
      listed serving_shard
