-- ===== src/StorageClient.antt =====
-- StorageClient (app/src/StorageClient.cpp): files as objects of an S3 storage.
pub mod Naming
pub mod Transferring
use vecodex.Prelude.{
  ℕ, Bool, true, false, Option, none, some, List, ◌∷◌, [], ◌++◌, Key, lookup, insert, if◌then◌else◌,
}
use vecodex.Numerals.{hexadecimal}
use vecodex.EtcdClient.{Text}
use vecodex.Searcher.{Outcome, answer, crash}

-- The working directory: names with bytes.
abbrev pub Files : Type 0
Files = List (Text × List ℕ)

-- The login and the password that sign a request.
abbrev pub Credentials : Type 0
Credentials = Text × Text

-- Aws::S3::S3Client and the storage behind it, which are not part of the repository. `true` is a
-- successful outcome.
pub record S3 : Type 1 where
  pub State : Type 0
  pub list_buckets : Credentials → State → Bool
  pub put_object : Credentials → Text → Text → List ℕ → State → Bool × State
  pub get_object : Credentials → Text → Text → State → Option (List ℕ)
  pub delete_object : Credentials → Text → Text → State → Bool × State
  pub create_bucket : Credentials → Text → State → Bool × State

-- `s3Client` is empty before logIn. The host and the options are left out.
pub record StorageClient : Type 0 where
  pub s3_client : Option Credentials

-- `hash` stands for std::hash, which the language leaves open.
unfoldable pub make_bucket_name : (Text → ℕ) → Text → Text
unfolding hexadecimal
make_bucket_name hash name = 48 ∷ 48 ∷ 48 ∷ hexadecimal (hash name)

module _ (S : S3) (hash : Text → ℕ) where
  unfoldable pub log_in : Text → Text → StorageClient → S.State → Bool × StorageClient
  log_in login password client st =
      (S.list_buckets (login, password) st, record client { s3_client = some (login, password) })

  -- `crash` is a call through the empty `s3Client`.
  unfoldable pub put_object :
      ⦃e : Key Text⦄ → StorageClient → Text → Text → Files → S.State → Outcome (Bool × S.State)
  unfolding make_bucket_name
  put_object client bucket filename files st = elim (lookup filename files) [
    | none ↦ answer (false, st)
    | some bytes ↦ elim client.s3_client [
      | none ↦ crash
      | some c ↦ answer (S.put_object c (make_bucket_name hash bucket) filename bytes st)
    ]
  ]

  unfoldable pub get_object :
      ⦃e : Key Text⦄ → StorageClient → Text → Text → Files → S.State → Outcome (Bool × Files)
  unfolding make_bucket_name
  get_object client bucket filename files st = elim client.s3_client [
    | none ↦ crash
    | some c ↦ elim (S.get_object c (make_bucket_name hash bucket) filename st) [
      | none ↦ answer (false, files)
      | some bytes ↦ answer (true, insert filename bytes files)
    ]
  ]

  unfoldable pub del_object : StorageClient → Text → Text → S.State → Outcome (Bool × S.State)
  unfolding make_bucket_name
  del_object client bucket filename st = elim client.s3_client [
    | none ↦ crash
    | some c ↦ answer (S.delete_object c (make_bucket_name hash bucket) filename st)
  ]

  unfoldable pub create_bucket : StorageClient → Text → S.State → Outcome (Bool × S.State)
  unfolding make_bucket_name
  create_bucket client bucket st = elim client.s3_client [
    | none ↦ crash
    | some c ↦ answer (S.create_bucket c (make_bucket_name hash bucket) st)
  ]
