-- ===== src/Coordinator/Handler/Lagging.antt =====
-- One call of a searcher whose shard had no error: what etcd and the gauges are told of it.
use vecodex.Prelude.{ℕ, ◌≡◌, refl, ap, true, false, some, [], ◌∷◌, ◌++◌, Key, lookup, length, ltb}
use vecodex.Coordinator.Stats.{StatsManager, ResponseStats, aggregate_stats}
use vecodex.Coordinator.Handler.{
  Etcd, SearchRequest, Asked, CoordinatorImpl, shards_of, stats_of, responses_of, is_error_of,
  gauges_of, set_gauges, update_state_if_needed, destroy_collector, ask_client,
}
use vecodex.Coordinator.Handler.Asking.{lookup-shards_of-set_shard, stats_of-destroy_collector}

module _ {Name : Type 0} (E : Etcd Name) ⦃e : Key Name⦄ where
  gauges-set_gauges :
      (i s : Name) (stats : StatsManager) (c : CoordinatorImpl E)
      → lookup s (shards_of i (set_gauges E i s stats c).gauges) ≡ some (gauges_of stats)
  unfolding set_gauges
  gauges-set_gauges i s stats c = lookup-shards_of-set_shard i s (gauges_of stats) c.gauges

  update_state_if_needed_writes :
      (i s addr : Name) (stats : StatsManager) (c : CoordinatorImpl E) (etcd' : E.State)
      → ltb 0 stats.errors_cnt ≡ false
      → E.update_average_response_time c.etcd i s stats.average_response_time ≡ some etcd'
      → update_state_if_needed E i s addr stats c
        ≡ (true, record (set_gauges E i s stats c) { etcd = etcd' })
  unfolding update_state_if_needed
  update_state_if_needed_writes i s addr stats c etcd' h w = rw (update_state_if_needed, h, w) refl

module _ {Name Vec DocId : Type 0} (E : Etcd Name) ⦃e : Key Name⦄ ⦃d : Key DocId⦄
    (ask : Name → SearchRequest Name Vec → ℕ → Asked DocId) where
  -- If a shard had no error yet and etcd accepts its average, a call of one of its searchers reports
  -- to etcd and in the gauges the statistics from before the call, whatever the searcher answers. The
  -- call itself counts afterwards only: a searcher that fails is not removed by it.
  pub ask_client_lags :
      (request : SearchRequest Name Vec) (s addr : Name) (c : CoordinatorImpl E) (etcd' : E.State)
      → let i = request.index_id in
        let stats = stats_of E i s c in
        let a = ask addr request (length c.asked) in
        ltb 0 stats.errors_cnt ≡ false
        → E.update_average_response_time c.etcd i s stats.average_response_time ≡ some etcd'
        → (c' : CoordinatorImpl E) × (ask_client E ask request s addr c
            ≡ (true, responses_of a.answer, c'))
          × (c'.etcd ≡ etcd')
          × (lookup s (shards_of i c'.gauges) ≡ some (gauges_of stats))
          × (stats_of E i s c'
              ≡ aggregate_stats
                  (record { resp_time = a.time; is_error = is_error_of a.answer })
                  stats)
  unfolding ask_client destroy_collector set_gauges stats_of
  ask_client_lags request s addr c etcd' h w =
      let i = request.index_id in
      let stats = stats_of E i s c in
      let a = ask addr request (length c.asked) in
      let r : ResponseStats = record { resp_time = a.time; is_error = is_error_of a.answer } in
      let c₁ : CoordinatorImpl E = record c { asked = c.asked ++ (s, addr) ∷ [] } in
      let c₂ : CoordinatorImpl E = record (set_gauges E i s stats c₁) { etcd = etcd' } in
      (
        destroy_collector E i s r c₂,
        ap (λ u. (u.0, responses_of a.answer, destroy_collector E i s r u.1))
            (update_state_if_needed_writes E i s addr stats c₁ etcd' h w),
        refl,
        gauges-set_gauges E i s stats c₁,
        stats_of-destroy_collector E i s r c₂,
      )
