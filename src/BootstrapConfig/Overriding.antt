-- ===== src/BootstrapConfig/Overriding.antt =====
-- Parse_: the options of the command line over those of the file.
use vecodex.Prelude.{
  ◌≡◌, ◌≢◌, refl, sym, ap, subst, ◌∙◌, Option, none, some, List, [], ◌∷◌, Option-cases, inl, inr,
  ◌>>=◌, none≢some,
}
use mathlib.Core.Option.{some-injective}
use vecodex.EtcdClient.{Text}
use vecodex.BootstrapConfig.{Field, JsonLib, Args, string_field, override, override_all, options_of}

-- What the library documents of objects and strings.
pub record IsJsonLib (J : JsonLib) : Type 1 where
  pub IsObject : J.Json → Type 0
  pub null-IsObject : IsObject J.null
  pub field-IsObject : (f : Field) (j : J.Json) → IsObject j → (v : J.Json) × (J.field f j ≡ some v)
  pub set_field-IsObject :
      (f : Field) (v j : J.Json)
      → IsObject j
      → (j' : J.Json) × (J.set_field f v j ≡ some j')
        × IsObject j'
        × (J.field f j' ≡ some v)
        × ((g : Field) → f ≢ g → J.field g j' ≡ J.field g j)
  pub as_string-string : (t : Text) → J.as_string (J.string t) ≡ some t

module _ (J : JsonLib) where
  -- The text of an option: from the command line if it is not empty there, else from the file.
  abbrev pub choice : Text → Field → J.Json → Option Text
  choice [] f json = string_field J f json
  choice (c ∷ text) f json = some (c ∷ text)

  abbrev pub choices : List (Text × Field) → J.Json → Option (List Text)
  choices [] json = some []
  choices ((text, f) ∷ options) json = do
    t ← choice text f json
    ts ← choices options json
    some (t ∷ ts)

  -- No option of the list has this field.
  abbrev pub AreOther : Field → List (Text × Field) → Type 0
  AreOther f [] = Unit {0}
  AreOther f ((text, g) ∷ options) = (f ≢ g) × AreOther f options

  abbrev pub AreDistinct : List (Text × Field) → Type 0
  AreDistinct [] = Unit {0}
  AreDistinct ((text, f) ∷ options) = AreOther f options × AreDistinct options

  -- The fields have these texts.
  abbrev pub AreSet : List (Text × Field) → List Text → J.Json → Type 0
  AreSet [] ts json = Unit {0}
  AreSet ((text, f) ∷ options) [] json = ⊥
  AreSet ((text, f) ∷ options) (t ∷ ts) json =
      (string_field J f json ≡ some t) × AreSet options ts json

  choice_same :
      (text : Text) (f : Field) (json json' : J.Json)
      → J.field f json' ≡ J.field f json
      → choice text f json' ≡ choice text f json
  choice_same [] f json json' h = ap (λ v. v >>= J.as_string) h
  choice_same (c ∷ text) f json json' h = refl

  choices_same :
      (f : Field) (options : List (Text × Field)) (json json' : J.Json)
      → AreOther f options
      → ((g : Field) → f ≢ g → J.field g json' ≡ J.field g json)
      → choices options json' ≡ choices options json
  choices_same f [] json json' d h = refl
  choices_same f ((text, g) ∷ options) json json' d h =
      rw (choice_same text g json json' (h g d.0), choices_same f options json json' d.1 h) refl

  pub AreSet-stays :
      (f : Field) (options : List (Text × Field)) (ts : List Text) (json json' : J.Json)
      → AreOther f options
      → ((g : Field) → f ≢ g → J.field g json' ≡ J.field g json)
      → AreSet options ts json
      → AreSet options ts json'
  AreSet-stays f [] ts json json' d h s = tt
  AreSet-stays f ((text, g) ∷ options) [] json json' d h s = s
  AreSet-stays f ((text, g) ∷ options) (t ∷ ts) json json' d h s =
      (ap (λ v. v >>= J.as_string) (h g d.0) ∙ s.0, AreSet-stays f options ts json json' d.1 h s.1)

module _ (J : JsonLib) (K : IsJsonLib J) where
  override_lem :
      (text : Text) (f : Field) (r : J.Json) (t : Text)
      → K.IsObject r
      → choice J text f r ≡ some t
      → (r' : J.Json) × (override J text f r ≡ some r')
        × K.IsObject r'
        × (string_field J f r' ≡ some t)
        × ((g : Field) → f ≢ g → J.field g r' ≡ J.field g r)
  unfolding override
  override_lem [] f r t o h =
      let (r', p, o', q, s) = K.set_field-IsObject f (J.string t) r o in
      (r', rw (override, h) p, o', ap (λ v. v >>= J.as_string) q ∙ K.as_string-string t, s)
  override_lem (c ∷ text) f r t o h =
      let (r', p, o', q, s) = K.set_field-IsObject f (J.string (c ∷ text)) r o in
      (r', p, o', ap (λ v. v >>= J.as_string) q ∙ K.as_string-string (c ∷ text) ∙ h, s)

  override_fails :
      (text : Text) (f : Field) (r : J.Json) → choice J text f r ≡ none → override J text f r ≡ none
  unfolding override
  override_fails [] f r h = rw (override, h) refl
  override_fails (c ∷ text) f r h = absurd (none≢some (sym h))

  -- The fields of the options are the chosen ones, and all others are as before.
  pub record IsOverridden (options : List (Text × Field)) (ts : List Text) (r r' : J.Json)
      : Type 0 where
    pub object : K.IsObject r'
    pub set : AreSet J options ts r'
    pub kept : (g : Field) → AreOther J g options → J.field g r' ≡ J.field g r

  pub override_all_lem :
      (options : List (Text × Field)) (r : J.Json) (ts : List Text)
      → K.IsObject r
      → AreDistinct J options
      → choices J options r ≡ some ts
      → (r' : J.Json) × (override_all J options r ≡ some r') × IsOverridden options ts r r'
  unfolding override_all
  override_all_lem [] r ts o d h = (r, refl, record { object = o; set = tt; kept = λ g n. refl })
  override_all_lem ((text, f) ∷ options) r ts o d h = elim (Option-cases (choice J text f r)) [
    | inl p ↦ absurd (none≢some (rw (p) at h))
    | inr (t, p) ↦
        let (r₁, q, o₁, here, same) = override_lem text f r t o p in
        let later = choices_same J f options r r₁ d.0 same in
        elim (Option-cases (choices J options r)) [
          | inl n ↦ absurd (none≢some (rw (p, n) at h))
          | inr (us, n) ↦
              let (r', s, v) = override_all_lem options r₁ us o₁ d.1 (later ∙ n) in
              let e : t ∷ us ≡ ts = some-injective _ _ (rw (p, n) at h) in
              (
                r',
                rw (override_all, q) s,
                record {
                  object = v.object;
                  set =
                      subst (λ l. AreSet J ((text, f) ∷ options) l r') e
                        (ap (λ w. w >>= J.as_string) (v.kept f d.0) ∙ here, v.set);
                  kept = λ g n. v.kept g n.1 ∙ same g (λ i. n.0 (sym i));
                },
              )
        ]
  ]

  pub override_all_fails :
      (options : List (Text × Field)) (r : J.Json)
      → K.IsObject r
      → AreDistinct J options
      → choices J options r ≡ none
      → override_all J options r ≡ none
  unfolding override_all
  override_all_fails [] r o d h = absurd (none≢some (sym h))
  override_all_fails ((text, f) ∷ options) r o d h = elim (Option-cases (choice J text f r)) [
    | inl p ↦ rw (override_all, override_fails text f r p) refl
    | inr (t, p) ↦
        let (r₁, q, o₁, here, same) = override_lem text f r t o p in
        let later = choices_same J f options r r₁ d.0 same in
        elim (Option-cases (choices J options r)) [
          | inl n ↦ rw (override_all, q) (override_all_fails options r₁ o₁ d.1 (later ∙ n))
          | inr (us, n) ↦ absurd (none≢some (sym (rw (p, n) at h)))
        ]
  ]

  pub options_of-AreDistinct : (args : Args) → AreDistinct J (options_of args)
  options_of-AreDistinct args = (
    (λ h. cc, (λ h. cc, (λ h. cc, (λ h. cc, tt)))),
    ((λ h. cc, (λ h. cc, (λ h. cc, tt))), ((λ h. cc, (λ h. cc, tt)), ((λ h. cc, tt), (tt, tt)))),
  )
