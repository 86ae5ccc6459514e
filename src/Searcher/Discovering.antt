-- ===== src/Searcher/Discovering.antt =====
-- From Init of a searcher to a search request at the coordinator, with etcd between them.
use mathlib.Core.Path.{subst}
use mathlib.Core.List.{Memᴰ, append_assoc}
use mathlib.Core.List.Memᴰ as Memᴰ
use mathlib.Core.Option.{some-injective}
use vecodex.Prelude.{
  ℕ, suc, ◌+◌, ◌≡◌, refl, ap, ◌∙◌, sym, true, Option-cases, some, none≢some, List, [], ◌∷◌, ◌++◌,
  map, Key, lookup, member, length, if_pos, if_neg, if◌then◌else◌, inl, inr, arith,
}
use vecodex.Coordinator.Fraction.{Fraction}
use vecodex.Coordinator.Merging.{merge_searcher_answers}
use vecodex.Coordinator.Handler.{
  Etcd, SearchRequest, Asked, CoordinatorImpl, shards_of, responses_of, process_search_request,
}
use vecodex.Coordinator.Handler.Asking.{hosts_of, answers_of}
use vecodex.Coordinator.Handler.Updating.{named_shards, update_searchers_state_lem}
use vecodex.Coordinator.Handler.Answering.{Accepts, process_search_request_lem}
use vecodex.EtcdClient.{
  Text, Server, searchers, hosts, slash, path, host_key, average_key, list_searcher_hosts,
  update_average, coordinator_etcd,
}
use vecodex.StorageClient.{S3, StorageClient}
use vecodex.Searcher.{SearcherOps, SearcherImpl, registered}
use vecodex.Searcher.Creating.{create_searcher-registered}
use vecodex.Searcher.Serving.{init, address, create_searcher, IsEtcd, host_keys, init_lem}

-- What etcd documents of ls: every key that begins with the prefix is listed.
pub record IsListing (E : Server) ⦃e : Key Text⦄ (K : IsEtcd E) : Type 0 where
  pub ls-get :
      (st : E.State) (prefix rest v : Text) (entries : List (Text × Text))
      → E.ls st prefix ≡ some entries
      → K.get st (prefix ++ rest) ≡ some v
      → Memᴰ (prefix ++ rest, v) entries

-- An etcd that is reached and accepts what it is sent.
pub record IsUp (E : Server) : Type 0 where
  pub ls-answers :
      (st : E.State) (prefix : Text)
      → (entries : List (Text × Text)) × (E.ls st prefix ≡ some entries)
  pub set-answers : (st : E.State) (key v : Text) → (st' : E.State) × (E.set st key v ≡ some st')

host_key-path :
    (i s addr : Text) → host_key i s addr ≡ path (i ∷ searchers ∷ s ∷ hosts ∷ []) ++ slash ∷ addr
unfolding path
host_key-path i s addr =
    let tail = slash ∷ addr in
    let one : (s ++ (slash ∷ hosts)) ++ tail ≡ s ++ (slash ∷ (hosts ++ tail)) =
      append_assoc s (slash ∷ hosts) tail in
    let two = append_assoc i (slash ∷ (searchers ++ (slash ∷ (s ++ (slash ∷ hosts))))) tail in
    sym (two ∙ ap (λ t. i ++ (slash ∷ (searchers ++ (slash ∷ t)))) one)

module _ {Name : Type 0} ⦃e : Key Name⦄ where
  Memᴰ-hosts_of :
      (s addr : Name) (addrs : List Name) (shards : List (Name × List Name))
      → lookup s shards ≡ some addrs
      → Memᴰ addr addrs
      → Memᴰ (s, addr) (hosts_of shards)
  unfolding lookup
  Memᴰ-hosts_of s addr addrs [] h m = absurd (none≢some h)
  Memᴰ-hosts_of s addr addrs ((t, own) ∷ shards) h m = elim (e.dec t s) [
    | yes q ↦
        let r = some-injective _ _ (sym (rw (if_pos (e.dec t s) q) at h)) in
        let m' = subst (λ l. Memᴰ addr l) r m in
        Memᴰ.append_left (hosts_of shards) (
          subst (λ u. Memᴰ {A = Name × Name} (s, addr) (map (λ a. (u, a)) own)) (sym q)
            (Memᴰ.map (λ a. (s, a)) m'))
    | no q ↦
        Memᴰ.append_right (map (λ a. (t, a)) own)
          (Memᴰ-hosts_of s addr addrs shards (rw (if_neg (e.dec t s) q) at h) m)
  ]

module _ ⦃e : Key Text⦄ where
  member-host_keys :
      (addr i s : Text) (shards : List (Text × Text))
      → Memᴰ (i, s) shards
      → member (host_key i s addr) (host_keys addr shards) ≡ true
  unfolding member
  member-host_keys addr i s [] m = absurd (Memᴰ.not-nil m)
  member-host_keys addr i s ((j, t) ∷ shards) (Memᴰ.head q) =
      let k = ap (λ (x : Text × Text). host_key x.0 x.1 addr) q in
      if_pos (e.dec (host_key j t addr) (host_key i s addr)) (sym k) _ _
  member-host_keys addr i s ((j, t) ∷ shards) (Memᴰ.tail m) =
      let rest = member-host_keys addr i s shards m in ground (arith, rest)

  -- After Init, etcd lists the address for every shard that the searcher has.
  list_searcher_hosts-init :
      (E : Server) (K : IsEtcd E)
      → IsListing E K
      → (addr : Text) (shards : List (Text × Text)) (before started : E.State) (i s : Text)
        (found : List Text)
      → init E addr shards before ≡ some started
      → Memᴰ (i, s) shards
      → list_searcher_hosts E started i (some s) ≡ some found
      → Memᴰ addr found
  unfolding list_searcher_hosts
  list_searcher_hosts-init E K L addr shards before started i s found h m f =
      let prefix = path (i ∷ searchers ∷ s ∷ hosts ∷ []) in
      let g =
        init_lem E K addr shards before started (host_key i s addr) h
        ∙ ap (λ b. if b then some addr else K.get before (host_key i s addr))
            (member-host_keys addr i s shards m) in
      elim (Option-cases (E.ls started prefix)) [
        | inl q ↦ absurd (none≢some (rw (list_searcher_hosts, q) at f))
        | inr (entries, q) ↦
            let listed =
              L.ls-get started prefix (slash ∷ addr) addr entries q
                (rw (← host_key-path i s addr) g) in
            subst (λ l. Memᴰ addr l) (some-injective _ _ (rw (list_searcher_hosts, q) at f))
              (Memᴰ.map (λ (p : Text × Text). p.1) listed)
      ]

module _ {Name Vec DocId : Type 0} (E : Etcd Name) ⦃e : Key Name⦄ ⦃d : Key DocId⦄
    (ask : Name → SearchRequest Name Vec → ℕ → Asked DocId) where
  -- The answer of a host that is asked and answers is among those that are merged.
  Memᴰ-answers_of :
      (request : SearchRequest Name Vec) (s addr : Name) (docs : List DocId) (n : ℕ)
      (known : List (Name × Name))
      → ((m : ℕ) → (ask addr request m).answer ≡ some docs)
      → Memᴰ (s, addr) known
      → Memᴰ docs (answers_of E ask request n known)
  Memᴰ-answers_of request s addr docs n [] h m = absurd (Memᴰ.not-nil m)
  Memᴰ-answers_of request s addr docs n ((t, a) ∷ known) h (Memᴰ.head q) =
      let r = ap (λ (x : Name × Name). (ask x.1 request n).answer) (sym q) ∙ h n in
      Memᴰ.append_left (answers_of E ask request (suc n) known)
        (subst (λ o. Memᴰ docs (responses_of o)) (sym r) (Memᴰ.head refl))
  Memᴰ-answers_of request s addr docs n ((t, a) ∷ known) h (Memᴰ.tail m) =
      Memᴰ.append_right (responses_of (ask a request n).answer)
        (Memᴰ-answers_of request s addr docs (suc n) known h m)

module _ (E : Server) ⦃e : Key Text⦄ (U : IsUp E) (to_text : Fraction → Text) where
  list_searcher_hosts-answers :
      (st : E.State) (i s : Text)
      → (found : List Text) × (list_searcher_hosts E st i (some s) ≡ some found)
  unfolding list_searcher_hosts
  list_searcher_hosts-answers st i s =
      let (entries, q) = U.ls-answers st (path (i ∷ searchers ∷ s ∷ hosts ∷ [])) in
      (map (λ (p : Text × Text). p.1) entries, rw (list_searcher_hosts, q) refl)

  coordinator_etcd-Accepts : Accepts (coordinator_etcd E to_text)
  unfolding update_average
  coordinator_etcd-Accepts st i s average = U.set-answers st (average_key i s) (to_text average)

  -- The address is asked, and the answer of the searcher is merged.
  process_search_request-init :
      {Vec DocId : Type 0} ⦃d : Key DocId⦄ (K : IsEtcd E) (L : IsListing E K)
      (ask : Text → SearchRequest Text Vec → ℕ → Asked DocId) (request : SearchRequest Text Vec)
      (addr s : Text) (shards : List (Text × Text)) (ss : List Text) (docs : List DocId)
      (before : E.State) (c : CoordinatorImpl (coordinator_etcd E to_text))
      → init E addr shards before ≡ some c.etcd
      → Memᴰ (request.index_id, s) shards
      → named_shards (coordinator_etcd E to_text) request c.etcd ≡ some ss
      → member s ss ≡ true
      → ((n : ℕ) → (ask addr request n).answer ≡ some docs)
      → (answers : List (List DocId)) × (known : List (Text × Text)) × (c' : CoordinatorImpl
          (coordinator_etcd E to_text))
        × (process_search_request (coordinator_etcd E to_text) ask request c
            ≡ (some (merge_searcher_answers answers request.k), c'))
        × Memᴰ docs answers
        × (c'.asked ≡ c.asked ++ known)
        × Memᴰ (s, addr) known
  process_search_request-init K L ask request addr s shards ss docs before c h m n b a =
      let C = coordinator_etcd E to_text in
      let i = request.index_id in
      let found = λ (t : Text). list_searcher_hosts-answers c.etcd i t in
      let counted : CoordinatorImpl C = record c { requests_count = c.requests_count + 1 } in
      let (c', x, y, z) =
        update_searchers_state_lem C request ss (λ t. (found t).0) counted n (λ t. (found t).1) in
      let (c'', x', y') =
        process_search_request_lem C ask request c c' coordinator_etcd-Accepts x in
      let known = hosts_of (shards_of i c'.searchers_map) in
      let listed =
        list_searcher_hosts-init E K L addr shards before c.etcd i s (found s).0 h m (found s).1 in
      let old = lookup s (shards_of i c.searchers_map) in
      let k =
        Memᴰ-hosts_of s addr (found s).0 (shards_of i c'.searchers_map)
          (z s ∙ ap (λ t. if t then some (found s).0 else old) b) listed in
      (
        answers_of C ask request (length c'.asked) known,
        known,
        c'',
        x',
        Memᴰ-answers_of C ask request s addr docs (length c'.asked) known a k,
        y' ∙ ap (λ l. l ++ known) y,
        k,
      )

  pub process_search_request-create_searcher :
      {Config Vec DocId : Type 0} ⦃d : Key DocId⦄ (K : IsEtcd E) (L : IsListing E K) (S : S3)
      (hash : Text → ℕ) (O : SearcherOps Config DocId Vec)
      (ask : Text → SearchRequest Text Vec → ℕ → Asked DocId) (request : SearchRequest Text Vec)
      (host port s : Text) (config : Config) (configs : List (Text × Text × Config))
      (ss : List Text) (docs : List DocId) (before : E.State) (client client' : StorageClient)
      (st : S.State) (w : SearcherImpl Text O) (c : CoordinatorImpl (coordinator_etcd E to_text))
      → create_searcher S hash E O host port configs before client st ≡ some (w, c.etcd, client')
      → Memᴰ (request.index_id, s, config) configs
      → named_shards (coordinator_etcd E to_text) request c.etcd ≡ some ss
      → member s ss ≡ true
      → ((n : ℕ) → (ask (address host port) request n).answer ≡ some docs)
      → (answers : List (List DocId)) × (known : List (Text × Text)) × (c' : CoordinatorImpl
          (coordinator_etcd E to_text))
        × (process_search_request (coordinator_etcd E to_text) ask request c
            ≡ (some (merge_searcher_answers answers request.k), c'))
        × Memᴰ docs answers
        × (c'.asked ≡ c.asked ++ known)
        × Memᴰ (s, address host port) known
  process_search_request-create_searcher K L S hash O ask request host port s config configs ss docs
        before client client' st w c h m n b a =
      let (g, k) =
        create_searcher-registered S hash E O host port configs before c.etcd client client' st w
          request.index_id s config h m in
      process_search_request-init K L ask request (address host port) s (registered O w.shards) ss
        docs before c g k n b a
