-- ===== src/Tests/Handler.antt =====
-- Runs of the coordinator's handler over a small etcd.
use vecodex.Prelude.{
  ℕ, ◌≡◌, refl, true, none, some, List, [], ◌∷◌, nat_key, lookup, member, insert, has_key,
  ℕ_discrete, ap, ltb, ◌==◌, if◌then◌else◌,
}
use vecodex.Coordinator.Merging.{merge_searcher_answers}
use vecodex.Coordinator.Stats.{StatsManager, new_stats, aggregate_stats}
use vecodex.Coordinator.Handler.{
  Etcd, SearchRequest, Asked, CoordinatorImpl, shards_of, set_shard, stats_of,
  update_with_index_shard_info, update_searchers_state, ask_client, ask_clients,
  process_search_request, gauges_of,
}
use vecodex.Coordinator.Handler.Asking.{HasErrors, answers_of, hosts_of, ask_clients_removes}
use vecodex.Coordinator.Handler.Answering.{process_search_request_lem}
use vecodex.Coordinator.Handler.Lagging.{ask_client_lags}
use vecodex.Coordinator.Handler.Updating.{update_searchers_state_lem}

abbrev without : ℕ → List ℕ → List ℕ
without a [] = []
without a (b ∷ bs) = let rest = without a bs in if a == b then rest else b ∷ rest

-- Every shard has the same hosts.
abbrev small : Etcd ℕ
small = record {
  State = List ℕ;
  list_searcher_hosts = λ st i s. some st;
  list_shard_ids = λ st i. some (1 ∷ 2 ∷ []);
  remove_searcher_host = λ st i s addr. without addr st;
  update_average_response_time = λ st i s average. some st;
}

-- The searcher 9 fails.
abbrev ask : ℕ → SearchRequest ℕ ℕ → ℕ → Asked ℕ
ask addr request n = record {
  answer = (if addr == 9 then none else some (addr ∷ 5 ∷ []));
  time = 1;
}

abbrev request : SearchRequest ℕ ℕ
request = record { index_id = 0; shard_id = some 1; k = 3; vector_data = 0 }

abbrev failing : StatsManager
failing = record new_stats { responses_cnt = 4; errors_cnt = 1 }

abbrev before : CoordinatorImpl small
before = record {
  searchers_map = (0, (2, 7 ∷ []) ∷ []) ∷ [];
  searchers_stats = (0, (1, failing) ∷ []) ∷ [];
  etcd = 7 ∷ 8 ∷ 9 ∷ [];
  requests_count = 0;
  gauges = [];
  asked = [];
}

before_errors : HasErrors small 0 1 before
unfolding stats_of shards_of lookup ℕ_discrete
before_errors = refl

ask_clients_removes_example :
    (c' : CoordinatorImpl small) × (ask_clients small ask request 1 (7 ∷ 9 ∷ []) before
      ≡ (true, (7 ∷ 5 ∷ []) ∷ [], c'))
    × (c'.asked ≡ (1, 7) ∷ (1, 9) ∷ [])
    × (c'.etcd ≡ 8 ∷ [])
    × HasErrors small 0 1 c'
ask_clients_removes_example =
    ask_clients_removes small ask request 1 (7 ∷ 9 ∷ []) before before_errors

update_searchers_state_lem_example :
    (c' : CoordinatorImpl small) × (update_searchers_state small request before ≡ (true, c'))
    × (c'.asked ≡ [])
    × ((t : ℕ)
        → lookup t (shards_of 0 c'.searchers_map) ≡ (
            if member t (1 ∷ [])
            then some (7 ∷ 8 ∷ 9 ∷ [])
            else lookup t (shards_of 0 before.searchers_map)))
update_searchers_state_lem_example =
    update_searchers_state_lem small request (1 ∷ []) (λ t. 7 ∷ 8 ∷ 9 ∷ []) before refl (λ t. refl)

abbrev counted : CoordinatorImpl small
counted = record before { requests_count = 1 }

abbrev updated : CoordinatorImpl small
updated = record counted { searchers_map = (0, (2, 7 ∷ []) ∷ (1, 7 ∷ 8 ∷ 9 ∷ []) ∷ []) ∷ [] }

updated_lem : update_searchers_state small request counted ≡ (true, updated)
unfolding update_searchers_state update_with_index_shard_info set_shard shards_of lookup insert
    has_key ℕ_discrete
updated_lem = refl

-- The request names the shard 1, and a searcher of the shard 2 is asked too.
process_search_request_lem_example :
    let hosts = hosts_of (shards_of 0 updated.searchers_map) in
    (c'' : CoordinatorImpl small) × (process_search_request small ask request before
      ≡ (some (merge_searcher_answers (answers_of small ask request 0 hosts) 3), c''))
    × (c''.asked ≡ hosts)
process_search_request_lem_example =
    process_search_request_lem small ask request before updated (λ etcd i s average. (etcd, refl))
      updated_lem

-- The searcher 9 of the shard 2, which had two answers, fails: it stays in etcd.
abbrev healthy : StatsManager
healthy = record new_stats { responses_cnt = 2 }

abbrev answered : CoordinatorImpl small
answered = record before { searchers_stats = (0, (2, healthy) ∷ []) ∷ [] }

healthy_lem : stats_of small 0 2 answered ≡ healthy
unfolding stats_of shards_of lookup ℕ_discrete
healthy_lem = refl

ask_client_lags_example :
    (c' : CoordinatorImpl small) × (ask_client small ask request 2 9 answered ≡ (true, [], c'))
    × (c'.etcd ≡ 7 ∷ 8 ∷ 9 ∷ [])
    × (lookup 2 (shards_of 0 c'.gauges) ≡ some (gauges_of (stats_of small 0 2 answered)))
    × (stats_of small 0 2 c'
        ≡ aggregate_stats (record { resp_time = 1; is_error = true }) (stats_of small 0 2 answered))
ask_client_lags_example =
    ask_client_lags small ask request 2 9 answered (7 ∷ 8 ∷ 9 ∷ [])
      (ap (λ (x : StatsManager). ltb 0 x.errors_cnt) healthy_lem) refl

all_shards_asked :
    hosts_of (shards_of 0 updated.searchers_map) ≡ (2, 7) ∷ (1, 7) ∷ (1, 8) ∷ (1, 9) ∷ []
unfolding shards_of lookup ℕ_discrete
all_shards_asked = refl
