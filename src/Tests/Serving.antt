-- ===== src/Tests/Serving.antt =====
-- The life of a searcher with one shard.
use mathlib.Core.Option.{some-injective}
use vecodex.Prelude.{
  sym, ap, ℕ, ◌≡◌, refl, none, some, Option, List, [], ◌∷◌, ite, member, if◌then◌else◌,
}
use vecodex.Coordinator.Handler.{SearchRequest}
use vecodex.EtcdClient.{Text, Server, host_key, add_searcher_host, remove_searcher_host}
use vecodex.Searcher.{SearcherOps, SearcherImpl, process_search_request, registered}
use vecodex.Searcher.Registering.{search}
use vecodex.Searcher.Serving.{
  init, graceful_shutdown, IsEtcd, address, host_keys, graceful_shutdown-init,
}
use vecodex.Tests.EtcdClient.{text_key}

abbrev Keys : Type 0
Keys = Text → Option Text

abbrev memory : Server
memory = record {
  State = Keys;
  set = λ st key value. some (λ k. ite (text_key.dec key k) (some value) (st k));
  rm = λ st key. some (λ k. ite (text_key.dec key k) none (st k));
  ls = λ st prefix. none;
}

abbrev memory-IsEtcd : IsEtcd memory
memory-IsEtcd = record {
  get = λ st k. st k;
  get-set = λ st st' j v k h. ap (λ (s : Keys). s k) (sym (some-injective _ _ h));
  get-rm = λ st st' j k h. ap (λ (s : Keys). s k) (sym (some-injective _ _ h));
}

abbrev lists : SearcherOps ℕ ℕ ℕ
lists = record {
  Ix = List ℕ;
  Seg = ℕ;
  create = λ config. some [];
  search = λ q k x. some x;
  push_segment = λ segment x. segment ∷ x;
  erase_segment = λ id x. x;
}

abbrev serving : SearcherImpl Text lists
serving = record {
  shards = (97 ∷ [], (115 ∷ [], []) ∷ []) ∷ [];
  requests_count = 0;
  updates_count = [];
}

abbrev request : SearchRequest Text ℕ
request = record { index_id = 98 ∷ []; shard_id = none; k = 2; vector_data = 4 }

abbrev served : SearcherImpl Text lists
served = (process_search_request lists request serving).1

abbrev addr : Text
addr = address (104 ∷ []) (49 ∷ [])

abbrev key : Text
key = host_key (97 ∷ []) (115 ∷ []) addr

abbrev empty : Keys
empty k = none

abbrev started : Keys
started k = ite (text_key.dec key k) (some addr) none

abbrev ended : Keys
ended k = ite (text_key.dec key k) none (started k)

starts : init memory addr (registered lists serving.shards) empty ≡ some started
unfolding init add_searcher_host registered
starts = refl

ends : graceful_shutdown memory addr (registered lists served.shards) started ≡ some ended
unfolding graceful_shutdown remove_searcher_host registered process_search_request
ends = refl

graceful_shutdown-init_example :
    (started key
      ≡ (if member key (host_keys addr (registered lists serving.shards)) then some addr else none))
    × (ended key ≡ (
        if member key (host_keys addr (registered lists serving.shards))
        then none
        else started key))
graceful_shutdown-init_example =
    graceful_shutdown-init memory memory-IsEtcd lists addr (search request ∷ []) serving served
      empty started started ended starts refl ends key
