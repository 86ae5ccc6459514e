-- ===== src/BootstrapConfig/Starting.antt =====
-- main: the server that is started.
use vecodex.Prelude.{
  ℕ, ◌≡◌, ◌≢◌, refl, sym, ap, ◌∙◌, Bool, true, false, some, List, [], ◌∷◌, Key, if◌then◌else◌,
  if_pos, if_neg, arith,
}
use vecodex.EtcdClient.{Text}
use vecodex.StorageClient.{Files}
use vecodex.BootstrapConfig.{
  Field, JsonLib, Args, read_json_config, options_of, parse_config, string_field, Server, searcher,
  writer, coordinator, server_name, End, invalid_mode, server_failed, run_if, main,
}
use vecodex.BootstrapConfig.Overriding.{IsJsonLib, choices, AreSet}
use vecodex.BootstrapConfig.Parsing.{index_choice, parse_config_lem}

if_pair :
    {A B : Type 0} (b : Bool) (x : A) (y z : B)
    → ◌≡◌ {A = A × B} (if b then (x, y) else (x, z)) (x, (if b then y else z))
if_pair true x y z = refl
if_pair false x y z = refl

abbrev head_of : Text → ℕ
head_of [] = 0
head_of (c ∷ text) = c

searcher≢writer : server_name searcher ≢ server_name writer
searcher≢writer h = let q : ◌≡◌ {A = ℕ} 115 119 = ap head_of h in omega arith

searcher≢coordinator : server_name searcher ≢ server_name coordinator
searcher≢coordinator h = let q : ◌≡◌ {A = ℕ} 115 99 = ap head_of h in omega arith

writer≢coordinator : server_name writer ≢ server_name coordinator
writer≢coordinator h = let q : ◌≡◌ {A = ℕ} 119 99 = ap head_of h in omega arith

module _ (J : JsonLib) ⦃e : Key Text⦄ (run : Server → J.Json → Bool) where
  run_if_other :
      (server : Server) (chosen : Text) (config : J.Json) (rest : List Server × End)
      → chosen ≢ server_name server
      → run_if J run server chosen config rest ≡ rest
  unfolding run_if
  run_if_other server chosen config rest n = if_neg (e.dec chosen (server_name server)) n _ _

  -- What main does once a server has been chosen.
  abbrev pub started : Server → J.Json → List Server × End
  started server config = (server ∷ [], (if run server config then invalid_mode else server_failed))

  run_if_this :
      (server : Server) (chosen : Text) (config : J.Json)
      → chosen ≡ server_name server
      → run_if J run server chosen config ([], invalid_mode) ≡ started server config
  unfolding run_if
  run_if_this server chosen config p =
      if_pos (e.dec chosen (server_name server)) p _ _
      ∙ if_pair (run server config) (server ∷ []) invalid_mode server_failed

  -- The three tests of main.
  abbrev tests : Text → J.Json → List Server × End
  tests chosen config = run_if J run searcher chosen config (
      run_if J run writer chosen config (run_if J run coordinator chosen config ([], invalid_mode)))

  tests-started :
      (server : Server) (chosen : Text) (config : J.Json)
      → chosen ≡ server_name server
      → tests chosen config ≡ started server config
  tests-started searcher chosen config p =
      ap (run_if J run searcher chosen config) (
        run_if_other writer chosen config _ (λ q. searcher≢writer (sym p ∙ q))
        ∙ run_if_other coordinator chosen config _ (λ q. searcher≢coordinator (sym p ∙ q)))
      ∙ run_if_this searcher chosen config p
  tests-started writer chosen config p =
      run_if_other searcher chosen config _ (λ q. searcher≢writer (sym q ∙ p))
      ∙ ap (run_if J run writer chosen config)
          (run_if_other coordinator chosen config _ (λ q. writer≢coordinator (sym p ∙ q)))
      ∙ run_if_this writer chosen config p
  tests-started coordinator chosen config p =
      run_if_other searcher chosen config _ (λ q. searcher≢coordinator (sym q ∙ p))
      ∙ run_if_other writer chosen config _ (λ q. writer≢coordinator (sym q ∙ p))
      ∙ run_if_this coordinator chosen config p

  main-started :
      (files : Files) (args : Args) (config : J.Json) (chosen : Text)
      → parse_config J files args ≡ some config
      → string_field J Field.mode config ≡ some chosen
      → ((server : Server)
          → chosen ≡ server_name server
          → main J run files args ≡ started server config)
        × (((server : Server) → chosen ≢ server_name server)
            → main J run files args ≡ ([], invalid_mode))
  unfolding main
  main-started files args config chosen p q =
      rw (main, p, q)
        (
          λ server h. tests-started server chosen config h,
          λ n.
              run_if_other searcher chosen config _ (n searcher)
              ∙ run_if_other writer chosen config _ (n writer)
              ∙ run_if_other coordinator chosen config _ (n coordinator),
        )

  -- If the configuration is not refused, main starts the server that the chosen mode names, with the
  -- chosen options, and no other, or none if the mode names none; and when a server has come to its
  -- end without throwing, main still throws that the mode is invalid.
  pub main_lem :
      (K : IsJsonLib J) (files : Files) (args : Args) (r : J.Json) (chosen : Text)
      (texts : List Text) (v : J.Json)
      → read_json_config J files args.config_path ≡ some r
      → K.IsObject r
      → choices J (options_of args) r ≡ some (chosen ∷ texts)
      → index_choice J K args.indexes r ≡ some v
      → (config : J.Json) × AreSet J (options_of args) (chosen ∷ texts) config
        × (J.field Field.indexes config ≡ some v)
        × ((server : Server)
            → chosen ≡ server_name server
            → main J run files args ≡ started server config)
        × (((server : Server) → chosen ≢ server_name server)
            → main J run files args ≡ ([], invalid_mode))
  main_lem K files args r chosen texts v h o c i =
      let (config, p, set, here) =
        (parse_config_lem J K files args r h o).2 (chosen ∷ texts) v c i in
      let (found, other) = main-started files args config chosen p set.0 in
      (config, set, here, found, other)
