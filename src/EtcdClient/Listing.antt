-- ===== src/EtcdClient/Listing.antt =====
-- ListShardIds over the keys that the services write.
use vecodex.Prelude.{
  ◌≡◌, refl, ap, ◌∙◌, some, List, [], ◌∷◌, map, Key, include, include_all, All, ◌>>=◌,
}
use vecodex.EtcdClient.{
  Text, Server, searchers, hosts, stats, average_response_time, path, split, nth, host_key,
  average_key, collect_level, list_shard_ids,
}
use vecodex.EtcdClient.Splitting.{HasNoSlash, split-path}

-- What a key below an index stands for: a host of a shard, or the average of a shard.
pub data Entry : Type 0 where
  host : Text → Text → Entry
  average : Text → Entry

abbrev pub key_of : Text → Entry → Text
key_of i (host s addr) = host_key i s addr
key_of i (average s) = average_key i s

abbrev pub shard_of : Entry → Text
shard_of (host s addr) = s
shard_of (average s) = s

abbrev pub IsClean : Entry → Type 0
IsClean (host s addr) = HasNoSlash s × HasNoSlash addr
IsClean (average s) = HasNoSlash s

searchers-HasNoSlash : HasNoSlash searchers
searchers-HasNoSlash = (refl, (refl, (refl, (refl, (refl, (refl, (refl, (refl, (refl, tt)))))))))

hosts-HasNoSlash : HasNoSlash hosts
hosts-HasNoSlash = (refl, (refl, (refl, (refl, (refl, tt)))))

stats-HasNoSlash : HasNoSlash stats
stats-HasNoSlash = (refl, (refl, (refl, (refl, (refl, tt)))))

average-HasNoSlash : HasNoSlash average_response_time
average-HasNoSlash = (
  refl,
  (
    refl,
    (
      refl,
      (
        refl,
        (
          refl,
          (
            refl,
            (
              refl,
              (
                refl,
                (
                  refl,
                  (
                    refl,
                    (
                      refl,
                      (
                        refl,
                        (refl, (refl, (refl, (refl, (refl, (refl, (refl, (refl, (refl, tt))))))))),
                      ),
                    ),
                  ),
                ),
              ),
            ),
          ),
        ),
      ),
    ),
  ),
)

nth-split-key_of :
    (i : Text) (entry : Entry)
    → HasNoSlash i
    → IsClean entry
    → nth 2 (split (key_of i entry)) ≡ some (shard_of entry)
nth-split-key_of i (host s addr) h (c, d) = ap (nth 2) (
    split-path i (searchers ∷ s ∷ hosts ∷ addr ∷ [])
      (h, (searchers-HasNoSlash, (c, (hosts-HasNoSlash, (d, tt))))))
nth-split-key_of i (average s) h c = ap (nth 2) (
    split-path i (searchers ∷ s ∷ stats ∷ average_response_time ∷ [])
      (h, (searchers-HasNoSlash, (c, (stats-HasNoSlash, (average-HasNoSlash, tt))))))

module _ ⦃e : Key Text⦄ where
  collect_level-key_of :
      (i : Text) (entries : List Entry) (result : List Text)
      → HasNoSlash i
      → All IsClean entries
      → collect_level 2 (map (key_of i) entries) result
        ≡ some (include_all (map shard_of entries) result)
  unfolding collect_level
  collect_level-key_of i [] result h c = refl
  collect_level-key_of i (entry ∷ entries) result h c =
      ap (λ r. r >>= (λ name. collect_level 2 (map (key_of i) entries) (include name result)))
        (nth-split-key_of i entry h c.0)
      ∙ collect_level-key_of i entries (include (shard_of entry) result) h c.1

  -- If no name has a "/", ListShardIds gives every shard below the index once, whatever its keys stand
  -- for: also a shard that has no host left, but only its average response time.
  pub list_shard_ids_lem :
      (S : Server) (st : S.State) (i : Text) (entries : List Entry) (values : List (Text × Text))
      → S.ls st (path (i ∷ searchers ∷ [])) ≡ some values
      → map (λ p. p.0) values ≡ map (key_of i) entries
      → HasNoSlash i
      → All IsClean entries
      → list_shard_ids S st i ≡ some (include_all (map shard_of entries) [])
  unfolding list_shard_ids
  list_shard_ids_lem S st i entries values l k h c =
      ap (λ r. r >>= (λ found. collect_level 2 (map (λ p. p.0) found) [])) l
      ∙ ap (λ ks. collect_level 2 ks []) k
      ∙ collect_level-key_of i entries [] h c
