-- ===== src/Coordinator/Handler/Asking.antt =====
-- The loops of ProcessSearchRequest that ask every searcher.
use vecodex.Prelude.{
  append_nil, append_one, ℕ, suc, ◌≡◌, refl, ap, ◌∙◌, true, false, some, List, [], ◌∷◌, ◌++◌, map,
  Key, lookup, insert, lookup-insert_self, length, length-append, ltb, if◌then◌else◌, arith,
}
use vecodex.Coordinator.Stats.{StatsManager, ResponseStats, aggregate_stats, aggregate_stats-counts}
use vecodex.Coordinator.Handler.{
  Etcd, SearchRequest, Asked, CoordinatorImpl, shards_of, set_shard, stats_of, responses_of,
  is_error_of, update_state_if_needed, destroy_collector, ask_client, ask_clients,
}

-- The hosts of all shards, in the order in which they are asked.
abbrev pub hosts_of : {Name : Type 0} → List (Name × List Name) → List (Name × Name)
hosts_of [] = []
hosts_of ((s, addrs) ∷ shards) = map (λ addr. (s, addr)) addrs ++ hosts_of shards

module _ {V Name : Type 0} ⦃e : Key Name⦄ where
  pub lookup-shards_of-set_shard :
      (i s : Name) (v : V) (m : List (Name × List (Name × V)))
      → lookup s (shards_of i (set_shard i s v m)) ≡ some v
  unfolding shards_of set_shard
  lookup-shards_of-set_shard i s v m =
      rw (shards_of, lookup-insert_self i (insert s v (shards_of i m)) m)
        (lookup-insert_self s v (shards_of i m))

module _ {Name : Type 0} (E : Etcd Name) ⦃e : Key Name⦄ where
  pub stats_of-destroy_collector :
      (i s : Name) (r : ResponseStats) (c : CoordinatorImpl E)
      → stats_of E i s (destroy_collector E i s r c) ≡ aggregate_stats r (stats_of E i s c)
  unfolding stats_of destroy_collector
  stats_of-destroy_collector i s r c =
      rw
        (
          stats_of,
          lookup-shards_of-set_shard i s (aggregate_stats r (stats_of E i s c)) c.searchers_stats,
        )
        refl

  abbrev pub HasErrors : Name → Name → CoordinatorImpl E → Type 0
  HasErrors i s c = ltb 0 (stats_of E i s c).errors_cnt ≡ true

  HasErrors-destroy_collector :
      (i s : Name) (r : ResponseStats) (c : CoordinatorImpl E)
      → HasErrors i s c
      → HasErrors i s (destroy_collector E i s r c)
  HasErrors-destroy_collector i s r c h =
      let k = aggregate_stats-counts r (stats_of E i s c) in
      rw (stats_of-destroy_collector i s r c) (ground arith)

  update_state_if_needed_removes :
      (i s addr : Name) (stats : StatsManager) (c : CoordinatorImpl E)
      → ltb 0 stats.errors_cnt ≡ true
      → update_state_if_needed E i s addr stats c
        ≡ (true, record c { etcd = E.remove_searcher_host c.etcd i s addr })
  unfolding update_state_if_needed
  update_state_if_needed_removes i s addr stats c h = rw (update_state_if_needed, h) refl

module _ {Name Vec DocId : Type 0} (E : Etcd Name) ⦃e : Key Name⦄ ⦃d : Key DocId⦄
    (ask : Name → SearchRequest Name Vec → ℕ → Asked DocId) where
  -- The answers of the hosts that answer, when `n` calls came before.
  abbrev pub answers_of : SearchRequest Name Vec → ℕ → List (Name × Name) → List (List DocId)
  answers_of request n [] = []
  answers_of request n ((s, addr) ∷ hosts) =
      responses_of (ask addr request n).answer ++ answers_of request (suc n) hosts

  abbrev pub remove_all : Name → Name → List Name → E.State → E.State
  remove_all i s [] etcd = etcd
  remove_all i s (addr ∷ addrs) etcd = remove_all i s addrs (E.remove_searcher_host etcd i s addr)

  -- One call when the shard had an error before: the searcher is asked as ever, and removed from
  -- etcd whatever it answers.
  ask_client_removes :
      (request : SearchRequest Name Vec) (s addr : Name) (c : CoordinatorImpl E)
      → HasErrors E request.index_id s c
      → (c' : CoordinatorImpl E) × (ask_client E ask request s addr c
          ≡ (true, responses_of (ask addr request (length c.asked)).answer, c'))
        × (c'.asked ≡ c.asked ++ (s, addr) ∷ [])
        × (c'.etcd ≡ E.remove_searcher_host c.etcd request.index_id s addr)
        × HasErrors E request.index_id s c'
  unfolding ask_client destroy_collector
  ask_client_removes request s addr c h =
      let i = request.index_id in
      let a = ask addr request (length c.asked) in
      let r : ResponseStats = record { resp_time = a.time; is_error = is_error_of a.answer } in
      let c₁ : CoordinatorImpl E = record c { asked = c.asked ++ (s, addr) ∷ [] } in
      let c₂ : CoordinatorImpl E = record c₁ { etcd = E.remove_searcher_host c.etcd i s addr } in
      (
        destroy_collector E i s r c₂,
        ap (λ u. (u.0, responses_of a.answer, destroy_collector E i s r u.1))
            (update_state_if_needed_removes E i s addr (stats_of E i s c) c₁ h),
        refl,
        refl,
        HasErrors-destroy_collector E i s r c₂ h,
      )

  pub ask_clients_cons :
      (request : SearchRequest Name Vec) (s addr : Name) (addrs : List Name)
      (c c' c'' : CoordinatorImpl E) (answers answers' : List (List DocId))
      → ask_client E ask request s addr c ≡ (true, answers, c')
      → ask_clients E ask request s addrs c' ≡ (true, answers', c'')
      → ask_clients E ask request s (addr ∷ addrs) c ≡ (true, answers ++ answers', c'')
  unfolding ask_clients
  ask_clients_cons request s addr addrs c c' c'' answers answers' h k =
      ap
        (λ u.
          let r = ask_clients E ask request s addrs u.2 in
          if u.0 then (r.0, u.1 ++ r.1, r.2) else (false, [], u.2))
        h
      ∙ ap (λ r. (r.0, answers ++ r.1, r.2)) k

  -- If a shard had an error before, its searchers are all asked, the answers of those that answer
  -- are kept, and every one of the searchers is removed from etcd, also when all of them answer;
  -- and the shard keeps its errors, so that the same happens at the next request.
  pub ask_clients_removes :
      (request : SearchRequest Name Vec) (s : Name) (addrs : List Name) (c : CoordinatorImpl E)
      → HasErrors E request.index_id s c
      → (c' : CoordinatorImpl E) × (ask_clients E ask request s addrs c
          ≡ (true, answers_of request (length c.asked) (map (λ addr. (s, addr)) addrs), c'))
        × (c'.asked ≡ c.asked ++ map (λ addr. (s, addr)) addrs)
        × (c'.etcd ≡ remove_all request.index_id s addrs c.etcd)
        × HasErrors E request.index_id s c'
  unfolding ask_clients
  ask_clients_removes request s [] c h = (c, refl, append_nil c.asked, refl, h)
  ask_clients_removes request s (addr ∷ addrs) c h =
      let (c', x, y, z, h') = ask_client_removes request s addr c h in
      let (c'', x', y', z', h'') = ask_clients_removes request s addrs c' h' in
      let n : length c'.asked ≡ suc (length c.asked) =
        ap length y ∙ length-append c.asked ((s, addr) ∷ []) ∙ omega arith in
      let rest = map (λ addr. (s, addr)) addrs in
      (
        c'',
        ask_clients_cons request s addr addrs c c' c'' _ _ x x'
            ∙ ap
                (λ k. (
                  true,
                  responses_of (ask addr request (length c.asked)).answer
                      ++ answers_of request k rest,
                  c'',
                ))
                n,
        y' ∙ ap (λ l. l ++ rest) y ∙ append_one c.asked (s, addr) rest,
        z' ∙ ap (remove_all request.index_id s addrs) z,
        h'',
      )
