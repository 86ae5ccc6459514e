-- ===== src/Index/Scanning.antt =====
-- SegmentStorage::merge: a level without the last segment, and what the loop over it leaves.
use vecodex.Prelude.{
  ℕ, ◌≡◌, refl, ◌∙◌, Option, none, some, List, [], ◌∷◌, map, Key, leb, ◌==◌, if_intro, All,
  All-append,
}
use vecodex.BaseIndex.{IBaseIndex}
use vecodex.Segment.{Segment}
use vecodex.Index.State.{update_ne}
use vecodex.Index.Storage.{
  Scan, scan, merge_pair, pair_size, push_next, drop_null, erase_first, erase_all,
}
use vecodex.Index.Pointers.{IsClosed, IsEntry, AreEntries}

module _ {IdType Vec Dist : Type 0} (B : IBaseIndex IdType Vec Dist) ⦃e : Key IdType⦄
    (rand : ℕ → ℕ) where
  -- What a loop over a level with pointers other than `last` leaves.
  pub record IsScanned (next last : ℕ) (a : Scan B) (r : List (Option ℕ) × Scan B) : Type 0 where
    pub kept : r.1.heap last ≡ a.heap last
    pub inserted : All (IsClosed next last) r.1.inserted
    pub entries : All (IsEntry (IsClosed next last)) r.0

  merge_pair-heap :
      (next last p q : ℕ) (a : Scan B)
      → IsClosed next last p
      → (merge_pair B rand p q a).heap last ≡ a.heap last
  unfolding merge_pair
  merge_pair-heap next last p q a c = update_ne a.heap p last _ c.1

  merge_pair-inserted :
      (next last p q : ℕ) (a : Scan B)
      → IsClosed next last p
      → All (IsClosed next last) a.inserted
      → All (IsClosed next last) (merge_pair B rand p q a).inserted
  unfolding merge_pair
  merge_pair-inserted next last p q a c h =
      All-append (IsClosed next last) a.inserted (p ∷ []) h (c, tt)

  -- Another entry stands before those of the rest.
  IsScanned-cons :
      (next last : ℕ) (o : Option ℕ) (a : Scan B) (r : List (Option ℕ) × Scan B)
      → IsEntry (IsClosed next last) o
      → IsScanned next last a r
      → IsScanned next last a (o ∷ r.0, r.1)
  IsScanned-cons next last o a r h k = record {
    kept = k.kept;
    inserted = k.inserted;
    entries = (h, k.entries);
  }

  pub scan-IsScanned :
      (next last : ℕ) (l : List (Option ℕ)) (a : Scan B)
      → All (IsEntry (IsClosed next last)) l
      → All (IsClosed next last) a.inserted
      → IsScanned next last a (scan B rand l a)
  unfolding scan
  scan-IsScanned next last [] a h i = record { kept = refl; inserted = i; entries = tt }
  scan-IsScanned next last (none ∷ r) a h i =
      IsScanned-cons next last none a (scan B rand r a) tt (scan-IsScanned next last r a h.1 i)
  scan-IsScanned next last (some p ∷ []) a h i = record { kept = refl; inserted = i; entries = h }
  scan-IsScanned next last (some p ∷ none ∷ r) a h i =
      IsScanned-cons next last (some p) a (none ∷ (scan B rand r a).0, (scan B rand r a).1) h.0
        (IsScanned-cons next last none a (scan B rand r a) tt
          (scan-IsScanned next last r a h.1.1 i))
  scan-IsScanned next last (some p ∷ some q ∷ r) a h i =
      let a' = merge_pair B rand p q a in
      let taken = scan B rand r a' in
      let left = scan B rand (some q ∷ r) a in
      let t = scan-IsScanned next last r a' h.1.1 (merge_pair-inserted next last p q a h.0 i) in
      if_intro (IsScanned next last a) (leb (pair_size B rand p q a) a.amount)
        (none ∷ none ∷ taken.0, taken.1) (some p ∷ left.0, left.1)
        (λ _. record {
          kept = t.kept ∙ merge_pair-heap next last p q a h.0;
          inserted = t.inserted;
          entries = (tt, (tt, t.entries));
        })
        (λ _.
          IsScanned-cons next last (some p) a left h.0
            (scan-IsScanned next last (some q ∷ r) a h.1 i))

  module _ (P : ℕ → Type 0) where
    All-erase_first :
        (heap : ℕ → Segment B) (id : ℕ) (ps : List ℕ)
        → All P ps
        → All P (erase_first B rand heap id ps)
    unfolding erase_first
    All-erase_first heap id [] h = tt
    All-erase_first heap id (p ∷ ps) h =
        if_intro (All P) ((heap p).seg_id == id) ps (p ∷ erase_first B rand heap id ps) (λ _. h.1)
          (λ _. (h.0, All-erase_first heap id ps h.1))

    pub All-erase_all :
        (heap : ℕ → Segment B) (ids ps : List ℕ) → All P ps → All P (erase_all B rand heap ids ps)
    unfolding erase_all
    All-erase_all heap [] ps h = h
    All-erase_all heap (id ∷ ids) ps h =
        All-erase_all heap ids (erase_first B rand heap id ps) (All-erase_first heap id ps h)

    All-map_some : (ps : List ℕ) → All P ps → All (IsEntry P) (map some ps)
    All-map_some [] h = tt
    All-map_some (p ∷ ps) h = (h.0, All-map_some ps h.1)

    pub AreEntries-push_next :
        (ps : List ℕ) (ls : List (List (Option ℕ)))
        → All P ps
        → AreEntries P ls
        → AreEntries P (push_next ps ls)
    unfolding push_next
    AreEntries-push_next [] ls h k = k
    AreEntries-push_next (p ∷ ps) [] h k = ((h.0, All-map_some ps h.1), tt)
    AreEntries-push_next (p ∷ ps) (l ∷ ls) h k =
        (All-append (IsEntry P) l (some p ∷ map some ps) k.0 (h.0, All-map_some ps h.1), k.1)

    All-drop_null : (l : List (Option ℕ)) → All (IsEntry P) l → All (IsEntry P) (drop_null l)
    unfolding drop_null
    All-drop_null [] h = tt
    All-drop_null (none ∷ l) h = All-drop_null l h.1
    All-drop_null (some p ∷ l) h = (h.0, All-drop_null l h.1)

    pub AreEntries-drop_null :
        (ls : List (List (Option ℕ))) → AreEntries P ls → AreEntries P (map drop_null ls)
    AreEntries-drop_null [] h = tt
    AreEntries-drop_null (l ∷ ls) h = (All-drop_null l h.0, AreEntries-drop_null ls h.1)
