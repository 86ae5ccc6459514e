-- ===== src/StorageClient/Transferring.antt =====
-- putObject and getObject over a storage that keeps what it is given.
use vecodex.Prelude.{ℕ, ◌≡◌, refl, true, some, List, Key, lookup, insert, lookup-insert_self}
use vecodex.EtcdClient.{Text}
use vecodex.Searcher.{answer}
use vecodex.StorageClient.{S3, StorageClient, Files, Credentials, make_bucket_name, get_object}

-- What S3 documents of objects: a successful request gives an object its value, and a request for
-- one object of a bucket leaves the others alone.
pub record IsStorage (S : S3) : Type 0 where
  pub get-put :
      (c : Credentials) (b k : Text) (v : List ℕ) (st : S.State)
      → (S.put_object c b k v st).0 ≡ true
      → S.get_object c b k (S.put_object c b k v st).1 ≡ some v
  pub get-put_other :
      (c : Credentials) (b k j : Text) (v : List ℕ) (st : S.State)
      → ¬ (k ≡ j)
      → S.get_object c b j (S.put_object c b k v st).1 ≡ S.get_object c b j st
  pub get-delete_other :
      (c : Credentials) (b k j : Text) (st : S.State)
      → ¬ (k ≡ j)
      → S.get_object c b j (S.delete_object c b k st).1 ≡ S.get_object c b j st

-- A client that has logged in.
abbrev pub session : Credentials → StorageClient
session c = record { s3_client = some c }

module _ (S : S3) (hash : Text → ℕ) ⦃e : Key Text⦄ where
  -- An object that the storage has becomes a file.
  pub get_object-stored :
      (c : Credentials) (bucket filename : Text) (bytes : List ℕ) (files : Files) (st : S.State)
      → S.get_object c (make_bucket_name hash bucket) filename st ≡ some bytes
      → (get_object S hash (session c) bucket filename files st
          ≡ answer (true, insert filename bytes files))
        × (lookup filename (insert filename bytes files) ≡ some bytes)
  unfolding get_object
  get_object-stored c bucket filename bytes files st h =
      (rw (get_object, h) refl, lookup-insert_self filename bytes files)
