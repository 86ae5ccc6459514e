-- ===== src/StorageClient/Naming.antt =====
-- makeBucketName: which indexes share a bucket.
use vecodex.Prelude.{ℕ, ◌<◌, ◌≡◌, ap, List, [], ◌∷◌, ◌↔◌}
use vecodex.Numerals.{bit_limit, hexadecimal, hexadecimal_injective}
use vecodex.EtcdClient.{Text}
use vecodex.StorageClient.{make_bucket_name}

abbrev rest_of : List ℕ → List ℕ
rest_of (a ∷ b ∷ c ∷ cs) = cs
rest_of _ = []

-- If std::hash gives a `size_t`, two indexes have the same bucket exactly if their names have the
-- same hash.
pub make_bucket_name_same :
    (hash : Text → ℕ) (i j : Text)
    → hash i < bit_limit 64
    → hash j < bit_limit 64
    → (make_bucket_name hash i ≡ make_bucket_name hash j) ↔ (hash i ≡ hash j)
unfolding make_bucket_name
make_bucket_name_same hash i j h k = (
  λ q. hexadecimal_injective (hash i) (hash j) h k (ap rest_of q),
  λ q. ap (λ n. 48 ∷ 48 ∷ 48 ∷ hexadecimal n) q,
)
