-- ===== src/FaissIndex/Validity.antt =====
-- The invariant of the identifier tables, kept by every operation.
use vecodex.Prelude.{
  ℕ, suc, ◌+◌, ◌<◌, ◌≡◌, refl, ap, sym, ◌∙◌, true, false, some, List, [], ◌∷◌, ◌++◌, Order, Key,
  nat_key, lookup, lookup-insert, has_key, has_key-insert, member, include, member-include, length,
  length-append, length-include, arith, Bool-cases, Option-cases, dec_lt, include-member, inl, inr,
}
use mathlib.Core.List.{append-nil, append_assoc}
use mathlib.Core.Option.{some-ne-none}
use vecodex.FaissIndex.{
  Faiss, FaissIndex, create, register, register_all, add_batch, erase_one, erase_batch,
  live_entries, ids_of,
}
use vecodex.FaissIndex.Numbering.{
  number, number-append, insert-number, lookup-number_above, live_entries-append,
  live_entries-include,
}

module _ {Vec Dist IdType : Type 0} (F : Faiss Vec Dist) ⦃e : Key IdType⦄ ⦃o : Order Dist⦄ where
  -- `h` lists the identifiers ever added. `counted`: no position is erased twice, or unknown.
  pub record IsValid (h : List IdType) (s : FaissIndex F IdType) : Type 0 where
    pub numbered : s.inv_ids ≡ number 0 h
    pub next : s.next_id ≡ length h
    pub current : (i : IdType) (p : ℕ) → lookup i s.ids ≡ some p → lookup p s.inv_ids ≡ some i
    pub known : (i : IdType) (p : ℕ) → lookup p s.inv_ids ≡ some i → has_key i s.ids ≡ true
    pub below : (p : ℕ) → member p s.erased ≡ true → p < s.next_id
    pub counted : length (live_entries s.erased s.inv_ids) + length s.erased ≡ s.next_id

  pub create-IsValid : IsValid [] (create F)
  unfolding create number lookup member live_entries
  create-IsValid = record {
    numbered = refl;
    next = refl;
    current = λ i p h. cc;
    known = λ i p h. cc;
    below = λ p h. cc;
    counted = omega arith;
  }

  module _ (h : List IdType) (s : FaissIndex F IdType) (v : IsValid h s) where
    pub next_not_erased : member s.next_id s.erased ≡ false
    next_not_erased = elim (Bool-cases (member s.next_id s.erased)) [
      | inl m ↦ absurd (omega (arith, v.below s.next_id m))
      | inr m ↦ m
    ]

    inv_ids-register : (i : IdType) → (register F i s).inv_ids ≡ number 0 (h ++ i ∷ [])
    unfolding register
    inv_ids-register i = rw v.numbered (insert-number 0 s.next_id i h (omega (arith, v.next)))

    inv_ids-register_append :
        (i : IdType) → (register F i s).inv_ids ≡ s.inv_ids ++ number s.next_id (i ∷ [])
    inv_ids-register_append i =
        inv_ids-register i
        ∙ number-append 0 h (i ∷ [])
        ∙ ap (λ t. number 0 h ++ number t (i ∷ [])) (omega (arith, v.next))
        ∙ ap (λ t. t ++ number s.next_id (i ∷ [])) (sym v.numbered)

    -- One more identifier is one more live entry.
    pub live_entries-register :
        (i : IdType)
        → live_entries s.erased (register F i s).inv_ids
          ≡ live_entries s.erased s.inv_ids ++ (s.next_id, i) ∷ []
    unfolding number live_entries
    live_entries-register i = rw (
      inv_ids-register_append i,
      live_entries-append s.erased s.inv_ids ((s.next_id, i) ∷ []),
      next_not_erased,
    )

    register-current :
        (i j : IdType) (p : ℕ)
        → lookup j (register F i s).ids ≡ some p
        → lookup p (register F i s).inv_ids ≡ some j
    unfolding register
    register-current i j p q = ground (
      arith,
      lookup-insert i j s.next_id s.ids,
      lookup-insert s.next_id p i s.inv_ids,
      v.current j p,
      v.numbered,
      lookup-number_above 0 p h,
      v.next,
    )

    register-known :
        (i j : IdType) (p : ℕ)
        → lookup p (register F i s).inv_ids ≡ some j
        → has_key j (register F i s).ids ≡ true
    unfolding register
    register-known i j p q = ground (
      arith,
      has_key-insert i j s.next_id s.ids,
      lookup-insert s.next_id p i s.inv_ids,
      v.known j p,
    )

    pub register-IsValid : (i : IdType) → IsValid (h ++ i ∷ []) (register F i s)
    unfolding register
    register-IsValid i = record {
      numbered = inv_ids-register i;
      next = omega (arith, v.next, length-append h (i ∷ []));
      current = register-current i;
      known = register-known i;
      below = λ p m. omega (arith, v.below p m);
      counted = omega (
        arith,
        v.counted,
        ap length (live_entries-register i),
        length-append (live_entries s.erased s.inv_ids) ((s.next_id, i) ∷ []),
      );
    }

    pub lookup-lt : (i : IdType) (p : ℕ) → lookup i s.ids ≡ some p → p < s.next_id
    lookup-lt i p q = elim (dec_lt p s.next_id) [
      | yes l ↦ l
      | no l ↦ absurd (
          some-ne-none i (
            sym (v.current i p q)
            ∙ ap (lookup p) v.numbered
            ∙ lookup-number_above 0 p h (omega (arith, v.next))))
    ]

    -- A position that was live is one live entry less.
    live-include :
        (p : ℕ)
        → p < s.next_id
        → member p s.erased ≡ false
        → suc (length (live_entries (include p s.erased) s.inv_ids))
          ≡ length (live_entries s.erased s.inv_ids)
    live-include p l m =
        rw v.numbered (live_entries-include s.erased 0 p h (omega arith) (omega (arith, v.next)) m)

    include-counted :
        (p : ℕ)
        → p < s.next_id
        → length (live_entries (include p s.erased) s.inv_ids) + length (include p s.erased)
          ≡ s.next_id
    include-counted p l = elim (Bool-cases (member p s.erased)) [
      | inl m ↦ rw (include-member p s.erased m) v.counted
      | inr m ↦ ground (arith, live-include p, length-include p s.erased, v.counted)
    ]

    include-IsValid : (p : ℕ) → p < s.next_id → IsValid h (record s { erased = include p s.erased })
    include-IsValid p l = record {
      numbered = v.numbered;
      next = v.next;
      current = v.current;
      known = v.known;
      below = λ r m. ground (arith, member-include p r s.erased, v.below r);
      counted = include-counted p l;
    }

    pub erase_one-IsValid : (i : IdType) → IsValid h (erase_one F i s)
    unfolding erase_one
    erase_one-IsValid i = elim (Option-cases (lookup i s.ids)) [
      | inl q ↦ rw (q, erase_one) v
      | inr (p, q) ↦ rw (q, erase_one) (include-IsValid p (lookup-lt i p q))
    ]

    index-IsValid : (x : F.State) → IsValid h (record s { index = x })
    index-IsValid x = record {
      numbered = v.numbered;
      next = v.next;
      current = v.current;
      known = v.known;
      below = v.below;
      counted = v.counted;
    }

  pub register_all-IsValid :
      (is h : List IdType) (s : FaissIndex F IdType)
      → IsValid h s
      → IsValid (h ++ is) (register_all F is s)
  unfolding register_all
  register_all-IsValid [] h s v = rw append-nil v
  register_all-IsValid (i ∷ is) h s v =
      rw (← append_assoc h (i ∷ []) is)
        (register_all-IsValid is (h ++ i ∷ []) (register F i s) (register-IsValid h s v i))

  pub add_batch-IsValid :
      (vs : List (IdType × Vec)) (h : List IdType) (s : FaissIndex F IdType)
      → IsValid h s
      → IsValid (h ++ ids_of vs) (add_batch F vs s)
  unfolding add_batch
  add_batch-IsValid vs h s v = register_all-IsValid (ids_of vs) h _ (index-IsValid h s v _)

  pub erase_batch-IsValid :
      (is h : List IdType) (s : FaissIndex F IdType) → IsValid h s → IsValid h (erase_batch F is s)
  unfolding erase_batch
  erase_batch-IsValid [] h s v = v
  erase_batch-IsValid (i ∷ is) h s v =
      erase_batch-IsValid is h (erase_one F i s) (erase_one-IsValid h s v i)
