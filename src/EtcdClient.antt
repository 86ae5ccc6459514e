-- ===== src/EtcdClient.antt =====
-- EtcdClient (app/src/EtcdClient.cpp, app/include/EtcdClient.h): the keys under which searchers and
-- statistics stand in etcd. A string is a list of characters.
pub mod Splitting
pub mod Listing
use vecodex.Prelude.{
  ℕ, zero, suc, Option, none, some, List, [], ◌∷◌, ◌++◌, map, Key, include, if◌then◌else◌, ◌==◌,
  ◌>>=◌,
}
use vecodex.Coordinator.Fraction.{Fraction}
use vecodex.Coordinator.Handler.{Etcd, CoordinatorImpl}

abbrev pub Text : Type 0
Text = List ℕ

-- etcd::Client, which is not part of the repository; `none` is an error response or an exception.
pub record Server : Type 1 where
  pub State : Type 0
  pub set : State → Text → Text → Option State
  pub rm : State → Text → Option State
  -- The keys that begin with a prefix, with their values.
  pub ls : State → Text → Option (List (Text × Text))

abbrev pub slash : ℕ
slash = 47

abbrev pub searchers : Text
searchers = 115 ∷ 101 ∷ 97 ∷ 114 ∷ 99 ∷ 104 ∷ 101 ∷ 114 ∷ 115 ∷ []

abbrev pub hosts : Text
hosts = 104 ∷ 111 ∷ 115 ∷ 116 ∷ 115 ∷ []

abbrev pub stats : Text
stats = 115 ∷ 116 ∷ 97 ∷ 116 ∷ 115 ∷ []

abbrev pub average_response_time : Text
average_response_time =
    97 ∷ 118 ∷ 101 ∷ 114 ∷ 97 ∷ 103 ∷ 101 ∷ 95 ∷ 114 ∷ 101 ∷ 115 ∷ 112 ∷ 111 ∷ 110 ∷ 115 ∷ 101 ∷ 95
    ∷ 116 ∷ 105 ∷ 109 ∷ 101 ∷ []

-- The parts of a key, with "/" between them.
unfoldable pub path : List Text → Text
path [] = []
path (s ∷ []) = s
path (s ∷ t ∷ parts) = s ++ slash ∷ path (t ∷ parts)

abbrev pub host_key : Text → Text → Text → Text
host_key i s addr = path (i ∷ searchers ∷ s ∷ hosts ∷ addr ∷ [])

abbrev pub average_key : Text → Text → Text
average_key i s = path (i ∷ searchers ∷ s ∷ stats ∷ average_response_time ∷ [])

abbrev pub cons_head : ℕ → List Text → List Text
cons_head c [] = (c ∷ []) ∷ []
cons_head c (w ∷ ws) = (c ∷ w) ∷ ws

-- boost::algorithm::split at every "/".
unfoldable pub split : Text → List Text
split [] = [] ∷ []
split (c ∷ cs) = let rest = split cs in if c == slash then [] ∷ rest else cons_head c rest

abbrev pub nth : {A : Type 0} → ℕ → List A → Option A
nth n [] = none
nth zero (x ∷ xs) = some x
nth (suc n) (x ∷ xs) = nth n xs

-- The state after a call whose exception is caught.
abbrev pub or_same : {A : Type 0} → A → Option A → A
or_same a none = a
or_same a (some b) = b

module _ ⦃e : Key Text⦄ where
  -- The loop of ListAllKeys; `none` is its exception. The set stands in the order of insertion.
  unfoldable pub collect_level : ℕ → List Text → List Text → Option (List Text)
  unfolding split
  collect_level n [] result = some result
  collect_level n (k ∷ ks) result = do
    name ← nth n (split k)
    collect_level n ks (include name result)

module _ (S : Server) where
  abbrev pub get_all_values : S.State → Text → Option (List Text)
  get_all_values st prefix = do entries ← S.ls st prefix; some (map (λ p. p.1) entries)

  unfoldable pub list_searcher_hosts : S.State → Text → Option Text → Option (List Text)
  unfolding path
  list_searcher_hosts st i none = get_all_values st (path (i ∷ searchers ∷ []))
  list_searcher_hosts st i (some s) = get_all_values st (path (i ∷ searchers ∷ s ∷ hosts ∷ []))

  abbrev pub add_element : S.State → Text → Text → Option S.State
  add_element st path value = S.set st path value

  abbrev pub remove_element : S.State → Text → Option S.State
  remove_element st path = S.rm st path

  unfoldable pub add_searcher_host : S.State → Text → Text → Text → Option S.State
  add_searcher_host st i s addr = add_element st (host_key i s addr) addr

  unfoldable pub remove_searcher_host : S.State → Text → Text → Text → Option S.State
  remove_searcher_host st i s addr = remove_element st (host_key i s addr)

  -- The text of the first value that is found; `std::stod` is left to the caller.
  unfoldable pub get_average_response_time : S.State → Text → Text → Option (Option Text)
  get_average_response_time st i s = do
    values ← get_all_values st (average_key i s)
    some (nth 0 values)

  unfoldable pub update_average : S.State → Text → Text → Text → Option S.State
  update_average st i s value = add_element st (average_key i s) value

  unfoldable pub list_all_keys : ⦃e : Key Text⦄ → S.State → Text → ℕ → Option (List Text)
  unfolding collect_level
  list_all_keys st prefix nesting_level = do
    entries ← S.ls st prefix
    collect_level nesting_level (map (λ p. p.0) entries) []

  unfoldable pub list_shard_ids : ⦃e : Key Text⦄ → S.State → Text → Option (List Text)
  unfolding list_all_keys
  list_shard_ids st i = list_all_keys st (path (i ∷ searchers ∷ [])) 2

  -- The keys that DebugPrintEverything prints; `none` is its exception.
  unfoldable pub debug_print_everything : S.State → Option (List Text)
  debug_print_everything st = do entries ← S.ls st []; some (map (λ p. p.0) entries)

  -- The client as the coordinator uses it; `to_text` stands for std::to_string.
  abbrev pub coordinator_etcd : ⦃e : Key Text⦄ → (Fraction → Text) → Etcd Text
  coordinator_etcd to_text = record {
    State = S.State;
    list_searcher_hosts = λ st i s. list_searcher_hosts st i (some s);
    list_shard_ids = λ st i. list_shard_ids st i;
    remove_searcher_host = λ st i s addr. or_same st (remove_searcher_host st i s addr);
    update_average_response_time = λ st i s a. update_average st i s (to_text a);
  }

  -- The constructor of CoordinatorImpl; `none` is its exception.
  unfoldable pub create_coordinator :
      ⦃e : Key Text⦄
      → (to_text : Fraction → Text) → S.State
      → Option (CoordinatorImpl (coordinator_etcd to_text))
  unfolding debug_print_everything
  create_coordinator to_text st = do
    keys ← debug_print_everything st
    some (record {
      searchers_map = [];
      searchers_stats = [];
      etcd = st;
      requests_count = 0;
      gauges = [];
      asked = [];
    })
