-- ===== src/Coordinator/Handler/Answering.antt =====
-- ProcessSearchRequest while etcd accepts what the coordinator writes.
use mathlib.Core.List.{append_assoc}
use vecodex.Prelude.{
  ℕ, suc, ◌+◌, ◌≡◌, refl, ap, ◌∙◌, sym, true, false, none, some, List, [], ◌∷◌, ◌++◌, map, Key,
  insert, length, length-append, append_nil, append_one, ltb, if◌then◌else◌, arith, Bool-cases, inl,
  inr,
}
use vecodex.Coordinator.Fraction.{Fraction}
use vecodex.Coordinator.Merging.{merge_searcher_answers}
use vecodex.Coordinator.Stats.{StatsManager, ResponseStats}
use vecodex.Coordinator.Handler.{
  Etcd, SearchRequest, Asked, CoordinatorImpl, shards_of, stats_of, responses_of, is_error_of,
  update_searchers_state, set_gauges, update_state_if_needed, destroy_collector, ask_client,
  ask_clients, ask_shards, process_search_request,
}
use vecodex.Coordinator.Handler.Asking.{hosts_of, answers_of, ask_clients_cons}

asked_suc : {A : Type 0} (l m : List A) (x : A) → l ≡ m ++ x ∷ [] → length l ≡ suc (length m)
asked_suc l m x h = ap length h ∙ length-append m (x ∷ []) ∙ omega arith

-- Etcd accepts every average.
abbrev pub Accepts : {Name : Type 0} → Etcd Name → Type 0
Accepts {Name} E =
    (etcd : E.State) (i s : Name) (average : Fraction)
    → (etcd' : E.State) × (E.update_average_response_time etcd i s average ≡ some etcd')

module _ {Name : Type 0} (E : Etcd Name) ⦃e : Key Name⦄ where
  update_state_if_needed_ok :
      (i s addr : Name) (stats : StatsManager) (c : CoordinatorImpl E)
      → Accepts E
      → (c' : CoordinatorImpl E) × (update_state_if_needed E i s addr stats c ≡ (true, c'))
        × (c'.asked ≡ c.asked)
  unfolding update_state_if_needed set_gauges
  update_state_if_needed_ok i s addr stats c accepts = elim (Bool-cases (ltb 0 stats.errors_cnt)) [
    | inl q ↦ (
      record c { etcd = E.remove_searcher_host c.etcd i s addr },
      rw (update_state_if_needed, q) refl,
      refl,
    )
    | inr q ↦
        let (etcd', r) = accepts c.etcd i s stats.average_response_time in
        (
          record (set_gauges E i s stats c) { etcd = etcd' },
          rw (update_state_if_needed, q, r) refl,
          refl,
        )
  ]

module _ {Name Vec DocId : Type 0} (E : Etcd Name) ⦃e : Key Name⦄ ⦃d : Key DocId⦄
    (ask : Name → SearchRequest Name Vec → ℕ → Asked DocId) where
  answers_of-append :
      (request : SearchRequest Name Vec) (n : ℕ) (hosts more : List (Name × Name))
      → answers_of E ask request n (hosts ++ more)
        ≡ answers_of E ask request n hosts ++ answers_of E ask request (n + length hosts) more
  answers_of-append request n [] more =
      let q : n ≡ n + 0 = omega arith in ap (λ k. answers_of E ask request k more) q
  answers_of-append request n ((s, addr) ∷ hosts) more =
      let q : suc n + length hosts ≡ n + suc (length hosts) = omega arith in
      let first = responses_of (ask addr request n).answer in
      let front = answers_of E ask request (suc n) hosts in
      ap (λ l. first ++ l) (answers_of-append request (suc n) hosts more)
      ∙ sym (append_assoc first front (answers_of E ask request (suc n + length hosts) more))
      ∙ ap (λ k. (first ++ front) ++ answers_of E ask request k more) q

  ask_client_ok :
      (request : SearchRequest Name Vec) (s addr : Name) (c : CoordinatorImpl E)
      → Accepts E
      → (c' : CoordinatorImpl E) × (ask_client E ask request s addr c
          ≡ (true, responses_of (ask addr request (length c.asked)).answer, c'))
        × (c'.asked ≡ c.asked ++ (s, addr) ∷ [])
  unfolding ask_client destroy_collector
  ask_client_ok request s addr c accepts =
      let i = request.index_id in
      let a = ask addr request (length c.asked) in
      let r : ResponseStats = record { resp_time = a.time; is_error = is_error_of a.answer } in
      let (c', x, y) =
        update_state_if_needed_ok E i s addr (stats_of E i s c)
          (record c { asked = c.asked ++ (s, addr) ∷ [] }) accepts in
      (
        destroy_collector E i s r c',
        ap (λ u. (u.0, responses_of a.answer, destroy_collector E i s r u.1)) x,
        y,
      )

  ask_clients_ok :
      (request : SearchRequest Name Vec) (s : Name) (addrs : List Name) (c : CoordinatorImpl E)
      → Accepts E
      → (c' : CoordinatorImpl E) × (ask_clients E ask request s addrs c
          ≡ (true, answers_of E ask request (length c.asked) (map (λ addr. (s, addr)) addrs), c'))
        × (c'.asked ≡ c.asked ++ map (λ addr. (s, addr)) addrs)
  unfolding ask_clients
  ask_clients_ok request s [] c accepts = (c, refl, append_nil c.asked)
  ask_clients_ok request s (addr ∷ addrs) c accepts =
      let (c', x, y) = ask_client_ok request s addr c accepts in
      let (c'', x', y') = ask_clients_ok request s addrs c' accepts in
      let n : length c'.asked ≡ suc (length c.asked) = asked_suc c'.asked c.asked (s, addr) y in
      let rest = map (λ addr. (s, addr)) addrs in
      let answer = responses_of (ask addr request (length c.asked)).answer in
      (
        c'',
        ask_clients_cons E ask request s addr addrs c c' c'' _ _ x x'
            ∙ ap (λ k. (true, answer ++ answers_of E ask request k rest, c'')) n,
        y' ∙ ap (λ l. l ++ rest) y ∙ append_one c.asked (s, addr) rest,
      )

  ask_shards_ok :
      (request : SearchRequest Name Vec) (shards : List (Name × List Name)) (c : CoordinatorImpl E)
      → Accepts E
      → (c' : CoordinatorImpl E) × (ask_shards E ask request shards c
          ≡ (true, answers_of E ask request (length c.asked) (hosts_of shards), c'))
        × (c'.asked ≡ c.asked ++ hosts_of shards)
  unfolding ask_shards
  ask_shards_ok request [] c accepts = (c, refl, append_nil c.asked)
  ask_shards_ok request ((s, addrs) ∷ shards) c accepts =
      let (c', x, y) = ask_clients_ok request s addrs c accepts in
      let (c'', x', y') = ask_shards_ok request shards c' accepts in
      let own = map (λ addr. (s, addr)) addrs in
      let rest = hosts_of shards in
      let n = ap length y ∙ length-append c.asked own in
      let front = answers_of E ask request (length c.asked) own in
      (
        c'',
        ap
              (λ u.
                let r = ask_shards E ask request shards u.2 in
                if u.0 then (r.0, u.1 ++ r.1, r.2) else (false, [], u.2))
              x
            ∙ ap (λ r. (r.0, front ++ r.1, r.2)) x'
            ∙ ap (λ k. (true, front ++ answers_of E ask request k rest, c'')) n
            ∙ ap (λ l. (true, l, c'')) (sym (answers_of-append request (length c.asked) own rest)),
        y' ∙ ap (λ l. l ++ rest) y ∙ append_assoc c.asked own rest,
      )

  -- If etcd accepts every average and the searchers' state is updated without an exception, a
  -- search request succeeds: it asks every known searcher of the index once, shard by shard, leaves
  -- out those that fail, and answers with what the others answer, merged to `k`.
  pub process_search_request_lem :
      (request : SearchRequest Name Vec) (c c' : CoordinatorImpl E)
      → Accepts E
      → update_searchers_state E request (record c { requests_count = c.requests_count + 1 })
        ≡ (true, c')
      → let hosts = hosts_of (shards_of request.index_id c'.searchers_map) in
        (c'' : CoordinatorImpl E) × (process_search_request E ask request c ≡ (
          some
              (merge_searcher_answers (answers_of E ask request (length c'.asked) hosts) request.k),
          c'',
        ))
        × (c''.asked ≡ c'.asked ++ hosts)
  unfolding process_search_request
  process_search_request_lem request c c' accepts h =
      let i = request.index_id in
      let shards = shards_of i c'.searchers_map in
      let (c'', x, y) =
        ask_shards_ok request shards
          (record c' { searchers_map = insert i shards c'.searchers_map }) accepts in
      (
        c'',
        ap
              (λ u.
                let known = shards_of i u.1.searchers_map in
                let r =
                  ask_shards E ask request known
                    (record u.1 { searchers_map = insert i known u.1.searchers_map }) in
                if u.0
                then ((if r.0 then some (merge_searcher_answers r.1 request.k) else none), r.2)
                else (none, u.1))
              h
            ∙ ap (λ r. ((if r.0 then some (merge_searcher_answers r.1 request.k) else none), r.2))
                x,
        y,
      )
