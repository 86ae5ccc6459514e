-- ===== src/BootstrapConfig/Parsing.antt =====
-- Parse_: the whole configuration.
use vecodex.Prelude.{
  ◌≡◌, refl, Option, none, some, List, [], ◌∷◌, Option-cases, inl, inr, Key, ◌>>=◌,
}
use vecodex.EtcdClient.{Text}
use vecodex.StorageClient.{Files}
use vecodex.BootstrapConfig.{
  indexes, JsonLib, Args, read_json_config, override_indexes, options_of, parse_config,
}
use vecodex.BootstrapConfig.Overriding.{
  IsJsonLib, choices, AreOther, AreSet, AreSet-stays, override_all_lem, override_all_fails,
  options_of-AreDistinct,
}

module _ (J : JsonLib) (K : IsJsonLib J) where
  -- What `indexes` becomes: the text of the command line, parsed, if it is not empty, else what the
  -- file has.
  abbrev pub index_choice : Text → J.Json → Option J.Json
  index_choice [] json = J.field indexes json
  index_choice (c ∷ text) json = J.parse (c ∷ text)

  index_choice_same :
      (text : Text) (json json' : J.Json)
      → J.field indexes json' ≡ J.field indexes json
      → index_choice text json' ≡ index_choice text json
  index_choice_same [] json json' h = h
  index_choice_same (c ∷ text) json json' h = refl

  override_indexes-choice :
      (text : Text) (r : J.Json)
      → override_indexes J text r ≡ (index_choice text r >>= (λ v. J.set_field indexes v r))
  unfolding override_indexes
  override_indexes-choice [] r = refl
  override_indexes-choice (c ∷ text) r = refl

  indexes-AreOther : (args : Args) → AreOther J indexes (options_of args)
  indexes-AreOther args = (λ h. cc, (λ h. cc, (λ h. cc, (λ h. cc, (λ h. cc, tt)))))

  module _ ⦃e : Key Text⦄ where
    -- If the file of the configuration is read and is an object, or no file is named: every option is
    -- taken from the command line if it is not empty there, else from the file as it was read, and
    -- Parse_ sets the fields to just these. It throws exactly if one of the five texts is then
    -- missing, or no text, or if the indexes of the command line cannot be parsed.
    pub parse_config_lem :
        (files : Files) (args : Args) (r : J.Json)
        → read_json_config J files args.config_path ≡ some r
        → K.IsObject r
        → (choices J (options_of args) r ≡ none → parse_config J files args ≡ none)
          × (index_choice args.indexes r ≡ none → parse_config J files args ≡ none)
          × ((ts : List Text) (v : J.Json)
              → choices J (options_of args) r ≡ some ts
              → index_choice args.indexes r ≡ some v
              → (config : J.Json) × (parse_config J files args ≡ some config)
                × AreSet J (options_of args) ts config
                × (J.field indexes config ≡ some v))
    unfolding parse_config
    parse_config_lem files args r h o = (
      λ n.
          rw
            (
              parse_config,
              h,
              override_all_fails J K (options_of args) r o (options_of-AreDistinct J K args) n,
            )
            refl,
      λ n. elim (Option-cases (choices J (options_of args) r)) [
        | inl m ↦
            rw
              (
                parse_config,
                h,
                override_all_fails J K (options_of args) r o (options_of-AreDistinct J K args) m,
              )
              refl
        | inr (ts, m) ↦
            let (r₁, p, w) =
              override_all_lem J K (options_of args) r ts o (options_of-AreDistinct J K args) m in
            rw
              (
                parse_config,
                h,
                p,
                override_indexes-choice args.indexes r₁,
                index_choice_same args.indexes r r₁ (w.kept indexes (indexes-AreOther args)),
                n,
              )
              refl
      ],
      λ ts v m n.
          let (r₁, p, w) =
            override_all_lem J K (options_of args) r ts o (options_of-AreDistinct J K args) m in
          let (config, q, _, here, same) = K.set_field-IsObject indexes v r₁ w.object in
          (
            config,
            rw
                (
                  parse_config,
                  h,
                  p,
                  override_indexes-choice args.indexes r₁,
                  index_choice_same args.indexes r r₁ (w.kept indexes (indexes-AreOther args)),
                  n,
                )
                q,
            AreSet-stays J indexes (options_of args) ts r₁ config (indexes-AreOther args) same
                w.set,
            here,
          ),
    )
