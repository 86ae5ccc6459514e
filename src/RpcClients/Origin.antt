-- ===== src/RpcClients/Origin.antt =====
-- Where the identifiers come from that the coordinator answers with.
use mathlib.Core.List.{Memᴰ}
use mathlib.Core.List.Memᴰ as Memᴰ
use mathlib.Core.Option.{some-injective}
use vecodex.Prelude.{
  ℕ, ◌+◌, ◌≡◌, refl, ap, ◌∙◌, sym, Option, none, some, none≢some, List, [], ◌∷◌, map, Key, length,
  subst, inl, inr, Bool-cases, insert, ℕ_discrete, arith,
}
use vecodex.Coordinator.Merging.Origin.{merge_searcher_answers-origin}
use vecodex.Coordinator.Handler.{
  Etcd, SearchRequest, Asked, CoordinatorImpl, shards_of, responses_of, update_searchers_state,
  ask_client, ask_clients, ask_shards, process_search_request,
}
use vecodex.Coordinator.Handler.Asking.{hosts_of}
use vecodex.Searcher.{SearcherOps, SearcherImpl, answer}
use vecodex.Searcher
use vecodex.RpcClients.{Reply, get_processed_documents, ask_single_searcher}

module _ {Name Vec DocId : Type 0} (E : Etcd Name) ⦃e : Key Name⦄ ⦃d : Key DocId⦄
    (ask : Name → SearchRequest Name Vec → ℕ → Asked DocId) where
  -- One of the hosts has answered with `docs`.
  abbrev Answers : SearchRequest Name Vec → List (Name × Name) → List DocId → Type 0
  Answers request hosts docs =
      (s addr : Name) × (n : ℕ) × Memᴰ {A = Name × Name} (s, addr) hosts
      × ((ask addr request n).answer ≡ some docs)

  responses_of-origin :
      (answer : Option (List DocId)) (docs : List DocId)
      → Memᴰ docs (responses_of answer)
      → answer ≡ some docs
  responses_of-origin none docs m = absurd (Memᴰ.not-nil m)
  responses_of-origin (some found) docs m = ap some (sym (Memᴰ.eq_of_singleton m))

  ask_clients-origin :
      (request : SearchRequest Name Vec) (s : Name) (addrs : List Name) (c : CoordinatorImpl E)
      (docs : List DocId)
      → Memᴰ docs (ask_clients E ask request s addrs c).1
      → Answers request (map (λ addr. (s, addr)) addrs) docs
  unfolding ask_clients ask_client
  ask_clients-origin request s [] c docs m = absurd (Memᴰ.not-nil m)
  ask_clients-origin request s (addr ∷ addrs) c docs m =
      let first = ask_client E ask request s addr c in
      elim (Bool-cases first.0) [
        | inl q ↦ elim (Memᴰ.append_cases first.1 (rw (ask_clients, q) at m)) [
          | inl t ↦ (s, addr, length c.asked, Memᴰ.head refl, responses_of-origin _ docs t)
          | inr t ↦
              let (u, a, n, k, h) = ask_clients-origin request s addrs first.2 docs t in
              (u, a, n, Memᴰ.tail k, h)
        ]
        | inr q ↦ absurd (Memᴰ.not-nil (rw (ask_clients, q) at m))
      ]

  ask_shards-origin :
      (request : SearchRequest Name Vec) (shards : List (Name × List Name)) (c : CoordinatorImpl E)
      (docs : List DocId)
      → Memᴰ docs (ask_shards E ask request shards c).1
      → Answers request (hosts_of shards) docs
  unfolding ask_shards
  ask_shards-origin request [] c docs m = absurd (Memᴰ.not-nil m)
  ask_shards-origin request ((s, addrs) ∷ shards) c docs m =
      let first = ask_clients E ask request s addrs c in
      elim (Bool-cases first.0) [
        | inl q ↦ elim (Memᴰ.append_cases first.1 (rw (ask_shards, q) at m)) [
          | inl t ↦
              let (u, a, n, k, h) = ask_clients-origin request s addrs c docs t in
              (u, a, n, Memᴰ.append_left (hosts_of shards) k, h)
          | inr t ↦
              let (u, a, n, k, h) = ask_shards-origin request shards first.2 docs t in
              (u, a, n, Memᴰ.append_right (map (λ addr. (s, addr)) addrs) k, h)
        ]
        | inr q ↦ absurd (Memᴰ.not-nil (rw (ask_shards, q) at m))
      ]

  abbrev counted : CoordinatorImpl E → CoordinatorImpl E
  counted c = record c { requests_count = c.requests_count + 1 }

  -- The hosts that the handler asks, if nothing throws.
  abbrev pub known_hosts : SearchRequest Name Vec → CoordinatorImpl E → List (Name × Name)
  known_hosts request c =
      hosts_of
        (shards_of request.index_id (update_searchers_state E request (counted c)).1.searchers_map)

  process_search_request-origin :
      (request : SearchRequest Name Vec) (c c' : CoordinatorImpl E) (ids : List DocId) (i : DocId)
      → process_search_request E ask request c ≡ (some ids, c')
      → Memᴰ i ids
      → (docs : List DocId) × Answers request (known_hosts request c) docs × Memᴰ i docs
  unfolding process_search_request
  process_search_request-origin request c c' ids i h m =
      let u = update_searchers_state E request (counted c) in
      let shards = shards_of request.index_id u.1.searchers_map in
      let r =
        ask_shards E ask request shards
          (record u.1 { searchers_map = insert request.index_id shards u.1.searchers_map }) in
      let h' = ap (λ (x : Option (List DocId) × CoordinatorImpl E). x.0) h in
      elim (Bool-cases u.0) [
        | inl q ↦ elim (Bool-cases r.0) [
          | inl p ↦
              let merged = some-injective _ _ (rw (process_search_request, q, p) at h') in
              let (docs, k, l) =
                merge_searcher_answers-origin i r.1 request.k
                  (subst (λ t. Memᴰ i t) (sym merged) m) in
              (docs, ask_shards-origin request shards _ docs k, l)
          | inr p ↦ absurd (none≢some (rw (process_search_request, q, p) at h'))
        ]
        | inr q ↦ absurd (none≢some (rw (process_search_request, q) at h'))
      ]

module _ {Config Name Vec DocId : Type 0} (E : Etcd Name) (O : SearcherOps Config DocId Vec)
    ⦃e : Key Name⦄ ⦃d : Key DocId⦄ where
  -- What gRPC documents: a call with the status OK brings what the handler has answered. `at` gives
  -- the state of the searcher at an address when the coordinator's n-th call reaches it.
  abbrev pub IsServed :
      (Name → ℕ → SearchRequest Name Vec → Reply (List DocId))
      → (Name → ℕ → SearcherImpl Name O)
      → Type 0
  IsServed stub at =
      (addr : Name) (n : ℕ) (request : SearchRequest Name Vec)
      → (stub addr n request).error_code ≡ 0
      → (Searcher.process_search_request O request (at addr n)).0
        ≡ answer (stub addr n request).response

  get_processed_documents-some :
      (stub : Name → ℕ → SearchRequest Name Vec → Reply (List DocId))
      (at : Name → ℕ → SearcherImpl Name O) (addr : Name) (n : ℕ) (request : SearchRequest Name Vec)
      (docs : List DocId)
      → IsServed stub at
      → get_processed_documents (stub addr n) request ≡ some docs
      → (Searcher.process_search_request O request (at addr n)).0 ≡ answer docs
  unfolding get_processed_documents
  get_processed_documents-some stub at addr n request docs served h =
      let reply = stub addr n request in
      elim (ℕ_discrete reply.error_code 0) [
        | yes q ↦
            let r = some-injective _ _ (rw (get_processed_documents, q) at h) in
            served addr n request q ∙ ap answer r
        | no q ↦ ground arith
      ]

  -- Over gRPC as documented and whatever etcd does, every identifier that the coordinator answers
  -- with was found by a searcher: a host that the coordinator knows for the index after it has asked
  -- etcd, whose handler ended with no exception and has the identifier in its answer.
  pub process_search_request-found :
      (stub : Name → ℕ → SearchRequest Name Vec → Reply (List DocId)) (time : Name → ℕ → ℕ)
      (at : Name → ℕ → SearcherImpl Name O) (request : SearchRequest Name Vec)
      (c c' : CoordinatorImpl E) (ids : List DocId) (i : DocId)
      → IsServed stub at
      → process_search_request E (ask_single_searcher stub time) request c ≡ (some ids, c')
      → Memᴰ i ids
      → (s addr : Name) × (n : ℕ) × (docs : List DocId) × Memᴰ {A = Name × Name}
          (s, addr)
          (known_hosts E (ask_single_searcher stub time) request c)
        × ((Searcher.process_search_request O request (at addr n)).0 ≡ answer docs)
        × Memᴰ i docs
  unfolding ask_single_searcher
  process_search_request-found stub time at request c c' ids i served h m =
      let (docs, (s, addr, n, k, a), l) =
        process_search_request-origin E (ask_single_searcher stub time) request c c' ids i h m in
      (s, addr, n, docs, k, get_processed_documents-some stub at addr n request docs served a, l)
