-- ===== src/FaissIndex/Files/Restoring.antt =====
-- A FaissIndex that some calls have made, written to a file and read back.
use vecodex.Prelude.{
  none, ℕ, ◌<◌, ◌≡◌, some, List, [], ◌∷◌, ◌++◌, map, length, lookup, Key, Order, nat_key, include,
  IsOnce, insert-IsOnce, IsDistinct, include-IsDistinct,
}
use vecodex.Binary.{Binary, word, word_limit}
use vecodex.FaissIndex.{
  Faiss, FaissIndex, create, register, register_all, add_batch, erase_one, erase_batch,
  merge_from_other, ids_of, rebuilt,
}
use vecodex.FaissIndex.History.{Call, adds, erases, merges, step, run}
use vecodex.FaissIndex.Files.{
  AreWritable, AreWords, serialize_index, read_from, read_from-serialize_index,
}

module _ {Vec Dist IdType : Type 0} (F : Faiss Vec Dist) ⦃e : Key IdType⦄ ⦃o : Order Dist⦄ where
  HasNoRepeats : FaissIndex F IdType → Type 0
  HasNoRepeats s = IsOnce s.ids × IsOnce s.inv_ids × IsDistinct s.erased

  register_all-HasNoRepeats :
      (is : List IdType) (s : FaissIndex F IdType)
      → HasNoRepeats s
      → HasNoRepeats (register_all F is s)
  unfolding register_all HasNoRepeats
  register_all-HasNoRepeats [] s h = h
  register_all-HasNoRepeats (i ∷ is) s (a, b, c) =
      register_all-HasNoRepeats is (register F i s)
        (insert-IsOnce i s.next_id s.ids a, insert-IsOnce s.next_id i s.inv_ids b, c)

  add_batch-HasNoRepeats :
      (vs : List (IdType × Vec)) (s : FaissIndex F IdType)
      → HasNoRepeats s
      → HasNoRepeats (add_batch F vs s)
  unfolding add_batch HasNoRepeats
  add_batch-HasNoRepeats vs s h =
      register_all-HasNoRepeats (ids_of vs) (record s { index = F.add s.index (map (λ v. v.1) vs) })
        h

  erase_one-HasNoRepeats :
      (i : IdType) (s : FaissIndex F IdType) → HasNoRepeats s → HasNoRepeats (erase_one F i s)
  unfolding erase_one HasNoRepeats
  erase_one-HasNoRepeats i s (a, b, c) =
      elim (lookup i s.ids)
        as (λ l.
          HasNoRepeats (elim l [ none ↦ s | some p ↦ record s { erased = include p s.erased } ])) [
            | none ↦ (a, b, c)
            | some p ↦ (a, b, include-IsDistinct p s.erased c)
          ]

  erase_batch-HasNoRepeats :
      (is : List IdType) (s : FaissIndex F IdType)
      → HasNoRepeats s
      → HasNoRepeats (erase_batch F is s)
  unfolding erase_batch
  erase_batch-HasNoRepeats [] s h = h
  erase_batch-HasNoRepeats (i ∷ is) s h =
      erase_batch-HasNoRepeats is (erase_one F i s) (erase_one-HasNoRepeats i s h)

  step-HasNoRepeats :
      (c : Call F IdType) (s : FaissIndex F IdType) → HasNoRepeats s → HasNoRepeats (step F c s)
  unfolding step merge_from_other
  step-HasNoRepeats (adds vs) s h = add_batch-HasNoRepeats vs s h
  step-HasNoRepeats (erases is) s h = erase_batch-HasNoRepeats is s h
  step-HasNoRepeats (merges other) s h = add_batch-HasNoRepeats (rebuilt F other) s h

  run-HasNoRepeats :
      (cs : List (Call F IdType)) (s : FaissIndex F IdType)
      → HasNoRepeats s
      → HasNoRepeats (run F cs s)
  unfolding run
  run-HasNoRepeats [] s h = h
  run-HasNoRepeats (c ∷ cs) s h = run-HasNoRepeats cs (step F c s) (step-HasNoRepeats c s h)

module _ {Vec Dist IdType : Type 0} (F : Faiss Vec Dist) ⦃e : Key IdType⦄ ⦃o : Order Dist⦄
    (store : Binary F.State) (id : Binary IdType) where
  -- The numbers, sizes and identifiers of the index fit into their bytes.
  abbrev pub Fits : FaissIndex F IdType → Type 0
  Fits s =
      store.IsWritable s.index
      × (s.next_id < word_limit 8)
      × (length s.ids < word_limit 8)
      × AreWritable id (word 8) s.ids
      × (length s.inv_ids < word_limit 8)
      × AreWritable (word 8) id s.inv_ids
      × (length s.erased < word_limit 8)
      × AreWords s.erased

  -- After any calls, an index whose numbers fit into their bytes is read back from its file as it
  -- was, and what follows it in the file is left to be read.
  pub read_from-run :
      (cs : List (Call F IdType)) (rest : List ℕ)
      → Fits (run F cs (create F))
      → read_from F store id (serialize_index F store id (run F cs (create F)) ++ rest)
        ≡ some (run F cs (create F), rest)
  unfolding HasNoRepeats create
  read_from-run cs rest (i, n, l, w, l', w', l'', w'') =
      let (a, b, c) = run-HasNoRepeats F cs (create F) (tt, tt, tt) in
      read_from-serialize_index F store id (run F cs (create F)) rest
        (i, n, (l, a, w), (l', b, w'), (l'', c, w''))
