-- ===== src/Tests/Config.antt =====
-- A writer whose mode is named on the command line and whose other options are in a file.
use vecodex.Prelude.{
  ℕ, ◌≡◌, ◌≢◌, refl, true, Option, none, some, List, [], ◌∷◌, insert, lookup-insert_self, ite,
  if_pos, if_neg, ℕ_discrete, sym, ◌∙◌, ap, ◌>>=◌,
}
use vecodex.EtcdClient.{Text, nth}
use vecodex.StorageClient.{Files}
use vecodex.BootstrapConfig.{
  Field, JsonLib, Args, read_json_config, options_of, parse_config, Server, writer, server_name,
  invalid_mode, main,
}
use vecodex.BootstrapConfig.Overriding.{IsJsonLib, choices, AreSet}
use vecodex.BootstrapConfig.Parsing.{index_choice, parse_config_lem}
use vecodex.BootstrapConfig.Starting.{started, main_lem}
use vecodex.Tests.EtcdClient.{text_key}

-- A missing value, a text, or an object.
data Value : Type 0 where
  missing : Value
  text : Text → Value
  object : (Field → Value) → Value

abbrev number : Field → ℕ
number Field.mode = 0
number Field.hostname = 1
number Field.port = 2
number Field.s3_host = 3
number Field.etcd_address = 4
number Field.indexes = 5
number Field.index_type = 6
number Field.library = 7
number Field.dim = 8
number Field.threshold = 9
number Field.metric = 10
number Field.enable_merge = 11
number Field.hnsw_m = 12

abbrev fields : List Field
fields =
    Field.mode ∷ Field.hostname ∷ Field.port ∷ Field.s3_host ∷ Field.etcd_address ∷ Field.indexes
    ∷ Field.index_type ∷ Field.library ∷ Field.dim ∷ Field.threshold ∷ Field.metric
    ∷ Field.enable_merge ∷ Field.hnsw_m ∷ []

abbrev field_at : ℕ → Field
field_at n = elim (nth n fields) [ none ↦ Field.mode | some f ↦ f ]

field_at-number : (f : Field) → field_at (number f) ≡ f
field_at-number Field.mode = refl
field_at-number Field.hostname = refl
field_at-number Field.port = refl
field_at-number Field.s3_host = refl
field_at-number Field.etcd_address = refl
field_at-number Field.indexes = refl
field_at-number Field.index_type = refl
field_at-number Field.library = refl
field_at-number Field.dim = refl
field_at-number Field.threshold = refl
field_at-number Field.metric = refl
field_at-number Field.enable_merge = refl
field_at-number Field.hnsw_m = refl

number_injective : (f g : Field) → number f ≡ number g → f ≡ g
number_injective f g h = sym (field_at-number f) ∙ ap field_at h ∙ field_at-number g

abbrev with_field : Field → Value → (Field → Value) → Field → Value
with_field f v h g = ite (ℕ_discrete (number f) (number g)) v (h g)

abbrev field : Field → Value → Option Value
field f missing = some missing
field f (text t) = none
field f (object h) = some (h f)

abbrev set_field : Field → Value → Value → Option Value
set_field f v missing = some (object (with_field f v (λ g. missing)))
set_field f v (text t) = none
set_field f v (object h) = some (object (with_field f v h))

abbrev as_string : Value → Option Text
as_string missing = none
as_string (text t) = some t
as_string (object h) = none

abbrev IsMap : Value → Type 0
IsMap missing = Unit {0}
IsMap (text t) = ⊥
IsMap (object h) = Unit {0}

-- A file's only content is a host name.
abbrev file_value : Value
file_value = object (with_field Field.hostname (text (104 ∷ [])) (λ g. text (120 ∷ [])))

abbrev values : JsonLib
values = record {
  Json = Value;
  null = missing;
  parse = λ t. some file_value;
  field = field;
  set_field = set_field;
  string = text;
  as_string = as_string;
  as_int = λ v. none;
  as_bool = λ v. none;
}

field-IsMap : (f : Field) (j : Value) → IsMap j → (v : Value) × (field f j ≡ some v)
field-IsMap f missing o = (missing, refl)
field-IsMap f (text t) o = absurd o
field-IsMap f (object h) o = (h f, refl)

set_field-IsMap :
    (f : Field) (v j : Value)
    → IsMap j
    → (j' : Value) × (set_field f v j ≡ some j')
      × IsMap j'
      × (field f j' ≡ some v)
      × ((g : Field) → f ≢ g → field g j' ≡ field g j)
set_field-IsMap f v missing o = (
  object (with_field f v (λ g. missing)),
  refl,
  tt,
  ap (λ w. some w) (if_pos (ℕ_discrete (number f) (number f)) refl v missing),
  λ g n.
      ap (λ w. some w)
        (if_neg (ℕ_discrete (number f) (number g)) (λ q. n (number_injective f g q)) v missing),
)
set_field-IsMap f v (text t) o = absurd o
set_field-IsMap f v (object h) o = (
  object (with_field f v h),
  refl,
  tt,
  ap (λ w. some w) (if_pos (ℕ_discrete (number f) (number f)) refl v (h f)),
  λ g n.
      ap (λ w. some w)
        (if_neg (ℕ_discrete (number f) (number g)) (λ q. n (number_injective f g q)) v (h g)),
)

abbrev values-IsJsonLib : IsJsonLib values
values-IsJsonLib = record {
  IsObject = IsMap;
  null-IsObject = tt;
  field-IsObject = field-IsMap;
  set_field-IsObject = set_field-IsMap;
  as_string-string = λ t. refl;
}

-- `--mode writer --config-path c`
abbrev args : Args
args = record {
  config_path = 99 ∷ [];
  mode = server_name writer;
  hostname = [];
  listening_port = [];
  s3_host = [];
  etcd_address = 101 ∷ [];
  indexes = [];
}

abbrev files : Files
files = insert (99 ∷ []) [] []

read : read_json_config values files args.config_path ≡ some file_value
unfolding read_json_config
read =
    ap (λ t. t >>= (λ u. some file_value))
      (lookup-insert_self {K = Text} {V = List ℕ} (99 ∷ []) [] [])

abbrev chosen : List Text
chosen = server_name writer ∷ (104 ∷ []) ∷ (120 ∷ []) ∷ (120 ∷ []) ∷ (101 ∷ []) ∷ []

chosen-choices : choices values (options_of args) file_value ≡ some chosen
unfolding ℕ_discrete
chosen-choices = refl

chosen-index : index_choice values values-IsJsonLib [] file_value ≡ some (text (120 ∷ []))
unfolding ℕ_discrete
chosen-index = refl

parse_config_lem_example :
    (choices values (options_of args) file_value ≡ none → parse_config values files args ≡ none)
    × (index_choice values values-IsJsonLib [] file_value ≡ none
        → parse_config values files args ≡ none)
    × ((ts : List Text) (v : Value)
        → choices values (options_of args) file_value ≡ some ts
        → index_choice values values-IsJsonLib [] file_value ≡ some v
        → (config : Value) × (parse_config values files args ≡ some config)
          × AreSet values (options_of args) ts config
          × (field Field.indexes config ≡ some v))
parse_config_lem_example = parse_config_lem values values-IsJsonLib files args file_value read tt

-- The writer runs until it is told to stop.
main_lem_example :
    (config : Value) × AreSet values (options_of args) chosen config
    × (field Field.indexes config ≡ some (text (120 ∷ [])))
    × ((server : Server)
        → server_name writer ≡ server_name server
        → main values (λ s c. true) files args ≡ started values (λ s c. true) server config)
    × (((server : Server) → server_name writer ≢ server_name server)
        → main values (λ s c. true) files args ≡ ([], invalid_mode))
main_lem_example =
    main_lem values (λ s c. true) values-IsJsonLib files args file_value (server_name writer)
      ((104 ∷ []) ∷ (120 ∷ []) ∷ (120 ∷ []) ∷ (101 ∷ []) ∷ []) (text (120 ∷ [])) read tt
      chosen-choices chosen-index
