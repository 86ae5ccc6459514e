-- ===== src/Writer/Choosing.antt =====
-- chooseShard.
use vecodex.Prelude.{
  ◌≡◌, refl, ap, ◌∙◌, Bool, true, false, none, some, List, [], ◌∷◌, Order, Key, All, has_key,
  if_pos, Bool-cases, inl, inr, ◌⊎◌, if◌then◌else◌, ◌>>=◌, arith,
}
use vecodex.Writer.{EtcdView, better, choose_shard}

module _ {Time : Type 0} ⦃o : Order Time⦄ where
  not_less_trans : (a b c : Time) → o.less b a ≡ false → o.less c b ≡ false → o.less c a ≡ false
  not_less_trans a b c h k = elim (Bool-cases (o.less c a)) [
    | inr q ↦ q
    | inl q ↦ elim (Bool-cases (o.less b c)) [
      | inl r ↦ absurd (ground (arith, o.less_trans b c a r q))
      | inr r ↦ absurd (ground (arith, ap (λ x. o.less x a) (o.less_connex b c r k)))
    ]
  ]

  less_asymm : (a b : Time) → o.less a b ≡ true → o.less b a ≡ false
  less_asymm a b h = elim (Bool-cases (o.less b a)) [
    | inr q ↦ q
    | inl q ↦ absurd (ground (arith, o.less_trans a b a h q, o.less_irrefl a))
  ]

module _ {Name Time Ix : Type 0} ⦃e : Key Name⦄ ⦃o : Order Time⦄ (view : EtcdView Name Time)
    (i : Name) (time : Name → Time) where
  choose_cons :
      (s₀ s₁ : Name) (x : Ix) (m : List (Name × Ix)) (b : Bool)
      → ((s : Name) → view.average_response_time i s ≡ some (time s))
      → o.less (time s₁) (time s₀) ≡ b
      → choose_shard view i ((s₁, x) ∷ m) (some (s₀, time s₀))
        ≡ choose_shard view i m (if b then some (s₁, time s₁) else some (s₀, time s₀))
  unfolding choose_shard better
  choose_cons s₀ s₁ x m b h q =
      ap (λ r. r >>= (λ t. choose_shard view i m (better s₁ t (some (s₀, time s₀))))) (h s₁)
      ∙ ap (λ b. choose_shard view i m (if b then some (s₁, time s₁) else some (s₀, time s₀))) q

  found_later :
      (s₁ s : Name) (x : Ix) (m : List (Name × Ix))
      → (s₁ ≡ s) ⊎ (has_key s m ≡ true)
      → has_key s ((s₁, x) ∷ m) ≡ true
  unfolding has_key
  found_later s₁ s x m (inl q) = if_pos (e.dec s₁ s) q true (has_key s m)
  found_later s₁ s x m (inr k) = ground arith

  still_found :
      (s₀ s₁ s : Name) (x : Ix) (m : List (Name × Ix))
      → (s₀ ≡ s) ⊎ (has_key s m ≡ true)
      → (s₀ ≡ s) ⊎ (has_key s ((s₁, x) ∷ m) ≡ true)
  still_found s₀ s₁ s x m (inl q) = inl q
  still_found s₀ s₁ s x m (inr k) = inr (found_later s₁ s x m (inr k))

  choose_from :
      (s₀ : Name) (m : List (Name × Ix))
      → ((s : Name) → view.average_response_time i s ≡ some (time s))
      → (s : Name) × (choose_shard view i m (some (s₀, time s₀)) ≡ some (some (s, time s)))
        × ((s₀ ≡ s) ⊎ (has_key s m ≡ true))
        × (o.less (time s₀) (time s) ≡ false)
        × All (λ p. o.less (time p.0) (time s) ≡ false) m
  unfolding choose_shard better has_key
  choose_from s₀ [] h = (s₀, refl, inl refl, o.less_irrefl (time s₀), tt)
  choose_from s₀ ((s₁, x) ∷ m) h = elim (Bool-cases (o.less (time s₁) (time s₀))) [
    | inl q ↦
        let (s, c, w, l, a) = choose_from s₁ m h in
        let below =
          not_less_trans (time s) (time s₁) (time s₀) l (less_asymm (time s₁) (time s₀) q) in
        (s, choose_cons s₀ s₁ x m true h q ∙ c, inr (found_later s₁ s x m w), below, (l, a))
    | inr q ↦
        let (s, c, w, l, a) = choose_from s₀ m h in
        let below = not_less_trans (time s) (time s₀) (time s₁) l q in
        (s, choose_cons s₀ s₁ x m false h q ∙ c, still_found s₀ s₁ s x m w, l, (below, a))
  ]

  -- If etcd knows the response times, chooseShard finds one of the shards, and no shard has a lower
  -- response time.
  pub choose_shard_lem :
      (s₀ : Name) (x : Ix) (m : List (Name × Ix))
      → ((s : Name) → view.average_response_time i s ≡ some (time s))
      → (s : Name) × (choose_shard view i ((s₀, x) ∷ m) none ≡ some (some (s, time s)))
        × (has_key s ((s₀, x) ∷ m) ≡ true)
        × All (λ p. o.less (time p.0) (time s) ≡ false) ((s₀, x) ∷ m)
  unfolding choose_shard better
  choose_shard_lem s₀ x m h =
      let (s, c, w, l, a) = choose_from s₀ m h in
      (
        s,
        ap (λ r. r >>= (λ t. choose_shard view i m (some (s₀, t)))) (h s₀) ∙ c,
        found_later s₀ s x m w,
        (l, a),
      )
