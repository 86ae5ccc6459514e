-- ===== src/Tests/EtcdClient.antt =====
-- The shards that are listed for an index.
use mathlib.Core.List.{head-eq_of_cons-eq, tail-eq_of_cons-eq, cons≢nil}
use vecodex.Prelude.{◌≡◌, refl, some, List, [], ◌∷◌, ap, ◌∙◌, sym, Key, include_all, ℕ_discrete}
use vecodex.EtcdClient.{Text, Server, host_key, average_key, list_shard_ids}
use vecodex.EtcdClient.Listing.{Entry, host, average, list_shard_ids_lem}

-- The index "a" has a host "h" of the shard "s", and of the shard "t" only the average.
abbrev entries : List Entry
entries = host (115 ∷ []) (104 ∷ []) ∷ average (116 ∷ []) ∷ []

abbrev values : List (Text × Text)
values =
    (host_key (97 ∷ []) (115 ∷ []) (104 ∷ []), 104 ∷ [])
    ∷ (average_key (97 ∷ []) (116 ∷ []), 49 ∷ [])
    ∷ []

-- A server that holds these keys.
abbrev server : Server
server = record {
  State = Unit {0};
  set = λ st key value. some st;
  rm = λ st key. some st;
  ls = λ st prefix. some values;
}

abbrev same_text : (a b : Text) → Dec (a ≡ b)
same_text [] [] = yes refl
same_text [] (y ∷ b) = no (λ h. cons≢nil (sym h))
same_text (x ∷ a) [] = no cons≢nil
same_text (x ∷ a) (y ∷ b) =
    let rest = same_text a b in
    elim (ℕ_discrete x y) [
      | no n ↦ no (λ h. n (head-eq_of_cons-eq h))
      | yes p ↦ elim rest [
        | no n ↦ no (λ h. n (tail-eq_of_cons-eq h))
        | yes q ↦ yes (ap (λ z. z ∷ a) p ∙ ap (λ c. y ∷ c) q)
      ]
    ]

instance abbrev pub text_key : Key Text
text_key = record { dec = same_text }

list_shard_ids_lem_example :
    list_shard_ids server tt (97 ∷ []) ≡ some (include_all ((115 ∷ []) ∷ (116 ∷ []) ∷ []) [])
list_shard_ids_lem_example =
    list_shard_ids_lem server tt (97 ∷ []) entries values refl refl (refl, tt)
      (((refl, tt), (refl, tt)), ((refl, tt), tt))
