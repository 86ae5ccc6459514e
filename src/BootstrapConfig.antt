-- ===== src/BootstrapConfig.antt =====
-- BootstrapConfig (app/include/BootstrapConfig.h) and the choice of the server in main
-- (app/src/main.cpp).
pub mod Overriding
pub mod Parsing
pub mod Starting
use vecodex.Prelude.{
  ℕ, Bool, true, false, Option, none, some, List, [], ◌∷◌, ◌++◌, Key, lookup, if◌then◌else◌, ite,
  ◌>>=◌,
}
use vecodex.EtcdClient.{Text, searchers}
use vecodex.StorageClient.{Files}

-- The fields of a configuration that the program reads.
pub data Field : Type 0 where
  mode hostname port s3_host etcd_address indexes : Field
  index_type library dim threshold metric enable_merge hnsw_m : Field

-- nlohmann::json, which is not part of the repository; `none` is an exception. `field` and `set_field`
-- are operator[], which makes an object of null.
pub record JsonLib : Type 1 where
  pub Json : Type 0
  pub null : Json
  pub parse : Text → Option Json
  pub field : Field → Json → Option Json
  pub set_field : Field → Json → Json → Option Json
  pub string : Text → Json
  pub as_string : Json → Option Text
  pub as_int : Json → Option ℕ
  pub as_bool : Json → Option Bool

-- What argparse gives for the options: the empty text is their default.
pub record Args : Type 0 where
  pub config_path : Text
  pub mode : Text
  pub hostname : Text
  pub listening_port : Text
  pub s3_host : Text
  pub etcd_address : Text
  pub indexes : Text

abbrev pub options_of : Args → List (Text × Field)
options_of args =
    (args.mode, mode)
    ∷ (args.hostname, hostname)
    ∷ (args.listening_port, port)
    ∷ (args.s3_host, s3_host)
    ∷ (args.etcd_address, etcd_address)
    ∷ []

module _ (J : JsonLib) where
  abbrev pub string_field : Field → J.Json → Option Text
  string_field f json = do value ← J.field f json; J.as_string value

  -- ReadJsonConfig_; a file that is missing is not parsed either.
  unfoldable pub read_json_config : ⦃e : Key Text⦄ → Files → Text → Option J.Json
  read_json_config files [] = some J.null
  read_json_config files (c ∷ path) = do text ← lookup (c ∷ path) files; J.parse text

  -- The line of one option in Parse_.
  unfoldable pub override : Text → Field → J.Json → Option J.Json
  override [] f result = do text ← string_field f result; J.set_field f (J.string text) result
  override (c ∷ text) f result = J.set_field f (J.string (c ∷ text)) result

  unfoldable pub override_all : List (Text × Field) → J.Json → Option J.Json
  unfolding override
  override_all [] result = some result
  override_all ((text, f) ∷ options) result = do
    result' ← override text f result
    override_all options result'

  -- The line of the option "--indexes".
  unfoldable pub override_indexes : Text → J.Json → Option J.Json
  override_indexes [] result = do value ← J.field indexes result; J.set_field indexes value result
  override_indexes (c ∷ text) result = do
    value ← J.parse (c ∷ text)
    J.set_field indexes value result

  -- Parse_ after parse_args.
  unfoldable pub parse_config : ⦃e : Key Text⦄ → Files → Args → Option J.Json
  unfolding read_json_config override_all override_indexes
  parse_config files args = do
    result ← read_json_config files args.config_path
    result' ← override_all (options_of args) result
    override_indexes args.indexes result'

pub data Server : Type 0 where
  searcher writer coordinator : Server

-- "searcher", "writer" and "coordinator".
abbrev pub server_name : Server → Text
server_name searcher = 115 ∷ 101 ∷ 97 ∷ 114 ∷ 99 ∷ 104 ∷ 101 ∷ 114 ∷ []
server_name writer = 119 ∷ 114 ∷ 105 ∷ 116 ∷ 101 ∷ 114 ∷ []
server_name coordinator = 99 ∷ 111 ∷ 111 ∷ 114 ∷ 100 ∷ 105 ∷ 110 ∷ 97 ∷ 116 ∷ 111 ∷ 114 ∷ []

-- How main ends: always by an exception.
pub data End : Type 0 where
  bad_config server_failed invalid_mode : End

module _ (J : JsonLib) ⦃e : Key Text⦄ where
  -- One test of main; `run` constructs and runs a server, and is `false` when it throws.
  unfoldable pub run_if :
      (Server → J.Json → Bool) → Server → Text → J.Json → List Server × End → List Server × End
  run_if run server chosen config rest =
      ite (e.dec chosen (server_name server))
        (if run server config then (server ∷ rest.0, rest.1) else (server ∷ [], server_failed)) rest

  -- main: the servers that are started, and its end.
  unfoldable pub main : (Server → J.Json → Bool) → Files → Args → List Server × End
  unfolding parse_config run_if
  main run files args = elim (parse_config J files args) [
    | none ↦ ([], bad_config)
    | some config ↦ elim (string_field J Field.mode config) [
      | none ↦ ([], bad_config)
      | some chosen ↦ run_if run searcher chosen config (
          run_if run writer chosen config (run_if run coordinator chosen config ([], invalid_mode)))
    ]
  ]
