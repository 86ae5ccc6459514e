-- ===== src/Tests/Clients.antt =====
-- A coordinator that reaches its searchers through the clients.
use mathlib.Core.List.{Memᴰ}
use vecodex.Prelude.{
  ℕ, arith, ◌≡◌, refl, some, List, [], ◌∷◌, nat_key, lookup, insert, has_key, ℕ_discrete, ◌==◌,
  if◌then◌else◌,
}
use vecodex.Coordinator.Fraction.{greater, get_score, add_score}
use vecodex.Coordinator.Merging.{
  merge_searcher_answers, tally_all, tally, bump, sort_ranked, insert_ranked,
}
use vecodex.Coordinator.Stats.{aggregate_stats}
use vecodex.Coordinator.Handler.{
  Etcd, SearchRequest, CoordinatorImpl, shards_of, set_shard, stats_of, set_gauges,
  update_with_index_shard_info, update_searchers_state, update_state_if_needed, destroy_collector,
  ask_client, ask_clients, ask_shards, process_search_request,
}
use vecodex.Searcher.{SearcherOps, SearcherImpl, Outcome, answer, exception, crash, search_all}
use vecodex.Searcher
use vecodex.RpcClients.{Reply, get_processed_documents, ask_single_searcher}
use vecodex.RpcClients.Origin.{IsServed, known_hosts, process_search_request-found}

abbrev small : Etcd ℕ
small = record {
  State = Unit {0};
  list_searcher_hosts = λ st i s. some (7 ∷ 9 ∷ []);
  list_shard_ids = λ st i. some (1 ∷ []);
  remove_searcher_host = λ st i s addr. st;
  update_average_response_time = λ st i s average. some st;
}

abbrev lists : SearcherOps ℕ ℕ ℕ
lists = record {
  Ix = List ℕ;
  Seg = ℕ;
  create = λ config. some [];
  search = λ q k x. some x;
  push_segment = λ segment x. segment ∷ x;
  erase_segment = λ id x. x;
}

-- The searcher 7 has the shard 1 of the index 0, any other one has nothing.
abbrev at : ℕ → ℕ → SearcherImpl ℕ lists
at addr n = record {
  shards = (if addr == 7 then (0, (1, 4 ∷ 5 ∷ []) ∷ []) ∷ [] else []);
  requests_count = n;
  updates_count = [];
}

-- UNKNOWN for an exception, UNAVAILABLE for a process that has ended.
abbrev reply_of : Outcome (List ℕ) → Reply (List ℕ)
reply_of (answer docs) = record { error_code = 0; response = docs }
reply_of exception = record { error_code = 2; response = [] }
reply_of crash = record { error_code = 14; response = [] }

reply_of-ok :
    (o : Outcome (List ℕ)) → (reply_of o).error_code ≡ 0 → o ≡ answer (reply_of o).response
reply_of-ok (answer docs) h = refl
reply_of-ok exception h = ground arith
reply_of-ok crash h = ground arith

abbrev stub : ℕ → ℕ → SearchRequest ℕ ℕ → Reply (List ℕ)
stub addr n request = reply_of (Searcher.process_search_request lists request (at addr n)).0

served : IsServed small lists stub at
served addr n request h =
    reply_of-ok (Searcher.process_search_request lists request (at addr n)).0 h

abbrev time : ℕ → ℕ → ℕ
time addr n = 1

abbrev request : SearchRequest ℕ ℕ
request = record { index_id = 0; shard_id = some 1; k = 2; vector_data = 0 }

abbrev before : CoordinatorImpl small
before = record {
  searchers_map = [];
  searchers_stats = [];
  etcd = tt;
  requests_count = 0;
  gauges = [];
  asked = [];
}

abbrev after : CoordinatorImpl small
after = (process_search_request small (ask_single_searcher stub time) request before).1

-- The searcher 9 crashes, and only the finds of the other one are merged.
answers_request :
    process_search_request small (ask_single_searcher stub time) request before
    ≡ (some (4 ∷ 5 ∷ []), after)
unfolding process_search_request update_searchers_state update_with_index_shard_info set_shard
    shards_of lookup insert has_key ℕ_discrete ask_shards ask_clients ask_client
    update_state_if_needed set_gauges destroy_collector stats_of aggregate_stats ask_single_searcher
    get_processed_documents Searcher.process_search_request search_all merge_searcher_answers
    tally_all tally bump sort_ranked insert_ranked get_score add_score greater
answers_request = refl

process_search_request-found_example :
    (s addr n : ℕ) × (docs : List ℕ) × Memᴰ {A = ℕ × ℕ}
      (s, addr)
      (known_hosts small (ask_single_searcher stub time) request before)
    × ((Searcher.process_search_request lists request (at addr n)).0 ≡ answer docs)
    × Memᴰ 5 docs
process_search_request-found_example =
    process_search_request-found small lists stub time at request before after (4 ∷ 5 ∷ []) 5 served
      answers_request (Memᴰ.tail (Memᴰ.head refl))
