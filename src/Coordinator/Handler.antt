-- ===== src/Coordinator/Handler.antt =====
-- CoordinatorImpl (app/src/Coordinator.cpp, app/include/Coordinator.h): the searchers it knows,
-- the statistics of every shard, and the handler of a search request.
pub mod Answering
pub mod Asking
pub mod Lagging
pub mod Updating
use vecodex.Prelude.{
  ℕ, suc, ◌+◌, ◌≡◌, Bool, true, false, Option, none, some, List, [], ◌∷◌, ◌++◌, Key, lookup,
  has_key, insert, length, ltb, if◌then◌else◌,
}
use vecodex.Coordinator.Fraction.{Fraction}
use vecodex.Coordinator.Merging.{merge_searcher_answers}
use vecodex.Coordinator.Stats.{StatsManager, ResponseStats, new_stats, aggregate_stats}

-- EtcdClient as the coordinator calls it; `none` is an exception.
pub record Etcd (Name : Type 0) : Type 1 where
  pub State : Type 0
  pub list_searcher_hosts : State → Name → Name → Option (List Name)
  pub list_shard_ids : State → Name → Option (List Name)
  pub remove_searcher_host : State → Name → Name → Name → State
  pub update_average_response_time : State → Name → Name → Fraction → Option State

pub record SearchRequest (Name Vec : Type 0) : Type 0 where
  pub index_id : Name
  pub shard_id : Option Name
  pub k : ℕ
  pub vector_data : Vec

-- What a searcher answers, and how long that takes; `none` is the exception of the client.
pub record Asked (DocId : Type 0) : Type 0 where
  pub answer : Option (List DocId)
  pub time : ℕ

-- The gauges with the labels of a shard.
pub record ShardGauges : Type 0 where
  pub requests_shard_count : ℕ
  pub errors_count : ℕ
  pub request_latency_avg : Fraction

abbrev pub gauges_of : StatsManager → ShardGauges
gauges_of stats = record {
  requests_shard_count = stats.responses_cnt;
  errors_count = stats.errors_cnt;
  request_latency_avg = stats.average_response_time;
}

module _ {Name : Type 0} (E : Etcd Name) where
  pub record CoordinatorImpl : Type 0 where
    pub searchers_map : List (Name × List (Name × List Name))
    pub searchers_stats : List (Name × List (Name × StatsManager))
    pub etcd : E.State
    -- PrometheusExposer: the counter of requests and the gauges of every shard.
    pub requests_count : ℕ
    pub gauges : List (Name × List (Name × ShardGauges))
    -- The calls of the searchers, oldest first: their shards and addresses.
    pub asked : List (Name × Name)

-- `collector.SetError()` in the handler of AskSingleSearcher.
abbrev pub is_error_of : {A : Type 0} → Option A → Bool
is_error_of none = true
is_error_of (some a) = false

-- `if (response.has_value()) search_responses.emplace_back(...)`
abbrev pub responses_of : {A : Type 0} → Option A → List A
responses_of none = []
responses_of (some a) = a ∷ []

module _ {V Name : Type 0} ⦃e : Key Name⦄ where
  -- `m[k]` of a map of maps.
  unfoldable pub shards_of : Name → List (Name × List (Name × V)) → List (Name × V)
  shards_of i m = elim (lookup i m) [ none ↦ [] | some shards ↦ shards ]

  -- `m[i][s] = v`
  unfoldable pub set_shard :
      Name → Name → V → List (Name × List (Name × V)) → List (Name × List (Name × V))
  unfolding shards_of
  set_shard i s v m = insert i (insert s v (shards_of i m)) m

module _ {Name : Type 0} (E : Etcd Name) ⦃e : Key Name⦄ where
  -- `searchers_stats[i][s]`, which creates a missing entry.
  unfoldable pub stats_of : Name → Name → CoordinatorImpl E → StatsManager
  unfolding shards_of
  stats_of i s c = elim (lookup s (shards_of i c.searchers_stats)) [ none ↦ new_stats | some x ↦ x ]

  -- The closure of UpdateSearchersState. Here and below `false` is an exception that the step throws.
  unfoldable pub update_with_index_shard_info :
      Name → Name → CoordinatorImpl E → Bool × CoordinatorImpl E
  unfolding set_shard
  update_with_index_shard_info i s c = elim (E.list_searcher_hosts c.etcd i s) [
    | none ↦ (false, c)
    | some hosts ↦ (
      true,
      record c {
        searchers_map = set_shard i s hosts c.searchers_map;
        searchers_stats =
            (if has_key i c.searchers_stats
              then c.searchers_stats
              else set_shard i s new_stats (insert i [] c.searchers_stats));
      },
    )
  ]

  unfoldable pub update_shards : Name → List Name → CoordinatorImpl E → Bool × CoordinatorImpl E
  unfolding update_with_index_shard_info
  update_shards i [] c = (true, c)
  update_shards i (s ∷ ss) c =
      let (ok, c') = update_with_index_shard_info i s c in
      let rest = update_shards i ss c' in if ok then rest else (false, c')

  -- The three calls of SetGauge.
  unfoldable pub set_gauges : Name → Name → StatsManager → CoordinatorImpl E → CoordinatorImpl E
  unfolding set_shard
  set_gauges i s stats c = record c { gauges = set_shard i s (gauges_of stats) c.gauges }

  -- `kHostErrorsLimit` is 1, and `responses % kRequestsToNextUpdate` is always 0. The gauges are set
  -- also when etcd then throws.
  unfoldable pub update_state_if_needed :
      Name → Name → Name → StatsManager → CoordinatorImpl E → Bool × CoordinatorImpl E
  unfolding set_gauges
  update_state_if_needed i s addr stats c =
      if ltb 0 stats.errors_cnt
      then (true, record c { etcd = E.remove_searcher_host c.etcd i s addr })
      else elim (E.update_average_response_time c.etcd i s stats.average_response_time) [
        | none ↦ (false, set_gauges i s stats c)
        | some etcd ↦ (true, record (set_gauges i s stats c) { etcd = etcd })
      ]

  -- The destructor of the collector, at the end of the loop's body.
  unfoldable pub destroy_collector :
      Name → Name → ResponseStats → CoordinatorImpl E → CoordinatorImpl E
  unfolding set_shard stats_of
  destroy_collector i s r c = record c {
    searchers_stats = set_shard i s (aggregate_stats r (stats_of i s c)) c.searchers_stats;
  }

module _ {Name Vec : Type 0} (E : Etcd Name) ⦃e : Key Name⦄ where
  unfoldable pub update_searchers_state :
      SearchRequest Name Vec → CoordinatorImpl E → Bool × CoordinatorImpl E
  unfolding update_shards
  update_searchers_state request c = elim request.shard_id [
    | some s ↦ update_with_index_shard_info E request.index_id s c
    | none ↦ elim (E.list_shard_ids c.etcd request.index_id) [
      | none ↦ (false, c)
      | some ss ↦ update_shards E request.index_id ss c
    ]
  ]

module _ {Name Vec DocId : Type 0} (E : Etcd Name) ⦃e : Key Name⦄ ⦃d : Key DocId⦄
    (ask : Name → SearchRequest Name Vec → ℕ → Asked DocId) where
  -- The body of the inner loop of ProcessSearchRequest. The collector is passed by reference, so it
  -- reports after UpdateStateIfNeeded, also when that throws.
  unfoldable pub ask_client :
      SearchRequest Name Vec
      → Name
      → Name
      → CoordinatorImpl E
      → Bool × List (List DocId) × CoordinatorImpl E
  unfolding update_state_if_needed destroy_collector
  ask_client request s addr c =
      let i = request.index_id in
      let a = ask addr request (length c.asked) in
      let r : ResponseStats = record { resp_time = a.time; is_error = is_error_of a.answer } in
      let (ok, c') =
        update_state_if_needed E i s addr (stats_of E i s c)
          (record c { asked = c.asked ++ (s, addr) ∷ [] }) in
      (ok, responses_of a.answer, destroy_collector E i s r c')

  unfoldable pub ask_clients :
      SearchRequest Name Vec
      → Name
      → List Name
      → CoordinatorImpl E
      → Bool × List (List DocId) × CoordinatorImpl E
  unfolding ask_client
  ask_clients request s [] c = (true, [], c)
  ask_clients request s (addr ∷ addrs) c =
      let (ok, answers, c') = ask_client request s addr c in
      let (ok', answers', c'') = ask_clients request s addrs c' in
      if ok then (ok', answers ++ answers', c'') else (false, [], c')

  unfoldable pub ask_shards :
      SearchRequest Name Vec
      → List (Name × List Name)
      → CoordinatorImpl E
      → Bool × List (List DocId) × CoordinatorImpl E
  unfolding ask_clients
  ask_shards request [] c = (true, [], c)
  ask_shards request ((s, addrs) ∷ shards) c =
      let (ok, answers, c') = ask_clients request s addrs c in
      let (ok', answers', c'') = ask_shards request shards c' in
      if ok then (ok', answers ++ answers', c'') else (false, [], c')

  -- The handler; `none` is an exception, which gRPC turns into an error status.
  unfoldable pub process_search_request :
      SearchRequest Name Vec → CoordinatorImpl E → Option (List DocId) × CoordinatorImpl E
  unfolding update_searchers_state ask_shards
  process_search_request request c =
      let i = request.index_id in
      let (ok, c') =
        update_searchers_state E request (record c { requests_count = c.requests_count + 1 }) in
      let shards = shards_of i c'.searchers_map in
      let (ok', answers, c'') =
        ask_shards request shards
          (record c' { searchers_map = insert i shards c'.searchers_map }) in
      if ok
      then ((if ok' then some (merge_searcher_answers answers request.k) else none), c'')
      else (none, c')
