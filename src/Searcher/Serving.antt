-- ===== src/Searcher/Serving.antt =====
-- The life of a searcher in etcd: Init, the requests, and GracefulShutdown.
use vecodex.Prelude.{
  ℕ, ◌≡◌, ap, ◌∙◌, sym, Option, none, some, none≢some, List, [], ◌∷◌, ◌++◌, Option-cases, inl, inr,
  Key, member, if◌then◌else◌, ite, ◌>>=◌, arith,
}
use mathlib.Core.Option.{some-injective}
use vecodex.EtcdClient.{Text, Server, host_key, add_searcher_host, remove_searcher_host}
use vecodex.StorageClient.{S3, StorageClient, log_in}
use vecodex.Searcher.{SearcherOps, SearcherImpl, answer, create_shards, registered}
use vecodex.Searcher.Registering.{Request, serve, serve-registered}

-- `host + ":" + port`
abbrev pub address : Text → Text → Text
address host port = host ++ 58 ∷ port

module _ (E : Server) where
  -- The loops of Init; `none` is an exception of etcd, with which the constructor ends.
  unfoldable pub init : Text → List (Text × Text) → E.State → Option E.State
  unfolding add_searcher_host
  init addr [] etcd = some etcd
  init addr ((i, s) ∷ shards) etcd = do
    etcd' ← add_searcher_host E etcd i s addr
    init addr shards etcd'

  -- The loops of GracefulShutdown; an exception leaves the destructor, and the process ends.
  unfoldable pub graceful_shutdown : Text → List (Text × Text) → E.State → Option E.State
  unfolding remove_searcher_host
  graceful_shutdown addr [] etcd = some etcd
  graceful_shutdown addr ((i, s) ∷ shards) etcd = do
    etcd' ← remove_searcher_host E etcd i s addr
    graceful_shutdown addr shards etcd'

abbrev pub user : Text
user = 117 ∷ 115 ∷ 101 ∷ 114 ∷ []

abbrev pub password : Text
password = 112 ∷ 97 ∷ 115 ∷ 115 ∷ 119 ∷ 111 ∷ 114 ∷ 100 ∷ []

module _ {Config DocId Vec : Type 0} (S : S3) (hash : Text → ℕ) (E : Server)
    (O : SearcherOps Config DocId Vec) ⦃e : Key Text⦄ where
  -- The constructor, with the states of etcd and of the storage; `none` is its exception. What logIn
  -- returns is not read.
  unfoldable pub create_searcher :
      Text
      → Text
      → List (Text × Text × Config)
      → E.State
      → StorageClient
      → S.State
      → Option (SearcherImpl Text O × E.State × StorageClient)
  unfolding init create_shards registered
  create_searcher host port shards_configs etcd client st = do
    shards ← create_shards O shards_configs []
    etcd' ← init E (address host port) (registered O shards) etcd
    some (
      record { shards = shards; requests_count = 0; updates_count = [] },
      etcd',
      (log_in S hash user password client st).1,
    )

-- What etcd documents of single keys.
pub record IsEtcd (E : Server) ⦃e : Key Text⦄ : Type 0 where
  pub get : E.State → Text → Option Text
  pub get-set :
      (st st' : E.State) (j v k : Text)
      → E.set st j v ≡ some st'
      → get st' k ≡ ite (e.dec j k) (some v) (get st k)
  pub get-rm :
      (st st' : E.State) (j k : Text)
      → E.rm st j ≡ some st'
      → get st' k ≡ ite (e.dec j k) none (get st k)

-- The keys of an address.
abbrev pub host_keys : Text → List (Text × Text) → List Text
host_keys addr [] = []
host_keys addr ((i, s) ∷ shards) = host_key i s addr ∷ host_keys addr shards

module _ (E : Server) ⦃e : Key Text⦄ (K : IsEtcd E) where
  pub init_lem :
      (addr : Text) (shards : List (Text × Text)) (st st' : E.State) (k : Text)
      → init E addr shards st ≡ some st'
      → K.get st' k ≡ (if member k (host_keys addr shards) then some addr else K.get st k)
  unfolding init add_searcher_host member
  init_lem addr [] st st' k h = ap (λ t. K.get t k) (sym (some-injective _ _ h))
  init_lem addr ((i, s) ∷ shards) st st' k h =
      elim (Option-cases (E.set st (host_key i s addr) addr)) [
        | inl q ↦ absurd (none≢some (rw (init, add_searcher_host, q) at h))
        | inr (st₁, q) ↦
            let rest = init_lem addr shards st₁ st' k (rw (init, add_searcher_host, q) at h) in
            let one = K.get-set st st₁ (host_key i s addr) addr k q in ground (arith, rest, one)
      ]

  graceful_shutdown_lem :
      (addr : Text) (shards : List (Text × Text)) (st st' : E.State) (k : Text)
      → graceful_shutdown E addr shards st ≡ some st'
      → K.get st' k ≡ (if member k (host_keys addr shards) then none else K.get st k)
  unfolding graceful_shutdown remove_searcher_host member
  graceful_shutdown_lem addr [] st st' k h = ap (λ t. K.get t k) (sym (some-injective _ _ h))
  graceful_shutdown_lem addr ((i, s) ∷ shards) st st' k h =
      elim (Option-cases (E.rm st (host_key i s addr))) [
        | inl q ↦ absurd (none≢some (rw (graceful_shutdown, remove_searcher_host, q) at h))
        | inr (st₁, q) ↦
            let rest =
              graceful_shutdown_lem addr shards st₁ st' k
                (rw (graceful_shutdown, remove_searcher_host, q) at h) in
            let one = K.get-rm st st₁ (host_key i s addr) k q in ground (arith, rest, one)
      ]

  -- A searcher that starts, handles requests that do not end in a crash, and shuts down: Init gives
  -- its address to the key of every shard that it has and changes no other key; whatever etcd has
  -- when the searcher ends, GracefulShutdown removes just these keys and leaves every other one.
  pub graceful_shutdown-init :
      {Config DocId Vec : Type 0} (O : SearcherOps Config DocId Vec) (addr : Text)
      (requests : List (Request Text O)) (w w' : SearcherImpl Text O)
      (before started ending after : E.State)
      → init E addr (registered O w.shards) before ≡ some started
      → serve O requests w ≡ answer w'
      → graceful_shutdown E addr (registered O w'.shards) ending ≡ some after
      → (k : Text)
      → (K.get started k ≡ (
          if member k (host_keys addr (registered O w.shards)) then some addr else K.get before k))
        × (K.get after k
            ≡ (if member k (host_keys addr (registered O w.shards)) then none else K.get ending k))
  graceful_shutdown-init O addr requests w w' before started ending after h r h' k = (
    init_lem addr (registered O w.shards) before started k h,
    graceful_shutdown_lem addr (registered O w'.shards) ending after k h'
        ∙ ap (λ l. if member k (host_keys addr l) then none else K.get ending k)
            (serve-registered O requests w w' r),
  )
