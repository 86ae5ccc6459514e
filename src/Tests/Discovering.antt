-- ===== src/Tests/Discovering.antt =====
-- A searcher that registers itself, and a coordinator that asks it, over keys in memory.
use mathlib.Core.List.{Memᴰ}
use mathlib.Core.Option.{some-injective}
use vecodex.Prelude.{
  ℕ, ◌≡◌, refl, ap, ◌∙◌, sym, Bool, true, false, none, none≢some, some, List, [], ◌∷◌, ◌++◌, ite,
  if_pos, if_neg, lookup, insert, remove, lookup-insert, lookup-remove, member, nat_key, ℕ_discrete,
  if◌then◌else◌, subst,
}
use vecodex.Coordinator.Fraction.{Fraction}
use vecodex.Coordinator.Merging.{merge_searcher_answers}
use vecodex.Coordinator.Handler.{
  SearchRequest, Asked, CoordinatorImpl, set_shard, shards_of, process_search_request,
}
use vecodex.EtcdClient.{
  Text, Server, host_key, coordinator_etcd, create_coordinator, debug_print_everything,
  add_searcher_host,
}
use vecodex.StorageClient.{S3, log_in}
use vecodex.Searcher.{SearcherOps, SearcherImpl, create_shards, registered}
use vecodex.Searcher.Serving.{init, address, user, password, create_searcher, IsEtcd}
use vecodex.Searcher.Discovering.{IsListing, IsUp, process_search_request-create_searcher}
use vecodex.Tests.EtcdClient.{text_key}

unfoldable is_prefix : Text → Text → Bool
is_prefix [] k = true
is_prefix (x ∷ p) [] = false
is_prefix (x ∷ p) (y ∷ k) = let rest = is_prefix p k in ite (ℕ_discrete x y) rest false

is_prefix-append : (p rest : Text) → is_prefix p (p ++ rest) ≡ true
unfolding is_prefix
is_prefix-append [] rest = refl
is_prefix-append (x ∷ p) rest = if_pos (ℕ_discrete x x) refl _ _ ∙ is_prefix-append p rest

unfoldable listing : Text → List (Text × Text) → List (Text × Text)
unfolding is_prefix
listing p [] = []
listing p ((k, v) ∷ st) = let rest = listing p st in if is_prefix p k then (k, v) ∷ rest else rest

listing-lookup :
    (p rest v : Text) (st : List (Text × Text))
    → lookup (p ++ rest) st ≡ some v
    → Memᴰ (p ++ rest, v) (listing p st)
unfolding listing lookup
listing-lookup p rest v [] h = absurd (none≢some h)
listing-lookup p rest v ((k, w) ∷ st) h = elim (text_key.dec k (p ++ rest)) [
  | yes q ↦
      let r = some-injective _ _ (sym (rw (if_pos (text_key.dec k (p ++ rest)) q) at h)) in
      let b = ap (is_prefix p) q ∙ is_prefix-append p rest in
      rw (listing, b) (Memᴰ.head (λ j. (sym q j, r j)))
  | no n ↦
      let m = listing-lookup p rest v st (rw (if_neg (text_key.dec k (p ++ rest)) n) at h) in
      elim (is_prefix p k)
        as (λ (b : Bool). Memᴰ (p ++ rest, v) (if b then (k, w) ∷ listing p st else listing p st)) [
          | true ↦ Memᴰ.tail m
          | false ↦ m
        ]
]

abbrev memory : Server
memory = record {
  State = List (Text × Text);
  set = λ st key value. some (insert key value st);
  rm = λ st key. some (remove key st);
  ls = λ st prefix. some (listing prefix st);
}

abbrev memory-IsEtcd : IsEtcd memory
memory-IsEtcd = record {
  get = λ st k. lookup k st;
  get-set = λ st st' j v k h. ap (lookup k) (sym (some-injective _ _ h)) ∙ lookup-insert j k v st;
  get-rm = λ st st' j k h. ap (lookup k) (sym (some-injective _ _ h)) ∙ lookup-remove j k st;
}

memory-IsListing : IsListing memory memory-IsEtcd
memory-IsListing = record {
  ls-get = λ st prefix rest v entries h g.
      subst (λ l. Memᴰ (prefix ++ rest, v) l) (some-injective _ _ h)
        (listing-lookup prefix rest v st g);
}

memory-IsUp : IsUp memory
memory-IsUp = record {
  ls-answers = λ st prefix. (listing prefix st, refl);
  set-answers = λ st key v. (insert key v st, refl);
}

abbrev to_text : Fraction → Text
to_text f = f.num ∷ []

abbrev index : Text
index = 97 ∷ []

abbrev shard : Text
shard = 115 ∷ []

abbrev host : Text
host = 104 ∷ []

abbrev port : Text
port = 49 ∷ []

abbrev lists : SearcherOps ℕ ℕ ℕ
lists = record {
  Ix = List ℕ;
  Seg = ℕ;
  create = λ config. some (config ∷ []);
  search = λ q k x. some x;
  push_segment = λ segment x. segment ∷ x;
  erase_segment = λ id x. x;
}

abbrev storage : S3
storage = record {
  State = Unit {0};
  list_buckets = λ c st. true;
  put_object = λ c bucket name bytes st. (true, st);
  get_object = λ c bucket name st. none;
  delete_object = λ c bucket name st. (true, st);
  create_bucket = λ c bucket st. (true, st);
}

abbrev hash : Text → ℕ
hash name = 0

abbrev configs : List (Text × Text × ℕ)
configs = (index, shard, 3) ∷ []

abbrev searcher : SearcherImpl Text lists
searcher = record {
  shards = (index, (shard, 3 ∷ []) ∷ []) ∷ [];
  requests_count = 0;
  updates_count = [];
}

abbrev started : List (Text × Text)
started = (host_key index shard (address host port), address host port) ∷ []

starts :
    create_searcher storage hash memory lists host port configs [] (record { s3_client = none }) tt
    ≡ some
        (searcher, started, (log_in storage hash user password (record { s3_client = none }) tt).1)
unfolding create_searcher create_shards init add_searcher_host registered insert set_shard shards_of
    lookup
starts = refl

abbrev request : SearchRequest Text ℕ
request = record { index_id = index; shard_id = some shard; k = 2; vector_data = 4 }

abbrev ask : Text → SearchRequest Text ℕ → ℕ → Asked ℕ
ask a r n = record { answer = some (5 ∷ 6 ∷ []); time = 1 }

abbrev unaware : CoordinatorImpl (coordinator_etcd memory to_text)
unaware = record {
  searchers_map = [];
  searchers_stats = [];
  etcd = started;
  requests_count = 0;
  gauges = [];
  asked = [];
}

unaware_lem : create_coordinator memory to_text started ≡ some unaware
unfolding create_coordinator debug_print_everything
unaware_lem = refl

named : member shard (shard ∷ []) ≡ true
unfolding member
named = if_pos (text_key.dec shard shard) refl true false

process_search_request-create_searcher_example :
    (answers : List (List ℕ)) × (known : List (Text × Text)) × (c' : CoordinatorImpl
      (coordinator_etcd memory to_text))
    × (process_search_request (coordinator_etcd memory to_text) ask request unaware
        ≡ (some (merge_searcher_answers answers 2), c'))
    × Memᴰ (5 ∷ 6 ∷ []) answers
    × (c'.asked ≡ known)
    × Memᴰ {A = Text × Text} (shard, address host port) known
process_search_request-create_searcher_example =
    process_search_request-create_searcher memory memory-IsUp to_text memory-IsEtcd memory-IsListing
      storage hash lists ask request host port shard 3 configs (shard ∷ []) (5 ∷ 6 ∷ []) []
      (record { s3_client = none })
      (log_in storage hash user password (record { s3_client = none }) tt).1 tt searcher unaware
      starts (Memᴰ.head refl) refl named (λ n. refl)
