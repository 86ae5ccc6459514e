-- ===== src/Tests/Index.antt =====
-- An index of segments of two vectors, over calls that change it.
use vecodex.Prelude.{
  ℕ, ◌≡◌, true, [], ◌∷◌, List, nat_key, nat_order, lookup, insert, include, ℕ_discrete, arith,
}
use vecodex.FaissIndex.{create, add_batch, register, erase_batch, size}
use vecodex.Segment
use vecodex.Samples.{flat}
use vecodex.Index.State.{finished, init, create_last, add_loop, fill_last, close_last, storage_add}
use vecodex.Index.Storage.{merge}
use vecodex.Index.Operations.{add, merge_if_enabled}
use vecodex.Index.History.{
  IsStable, Call, adds, erases, pushes, erases_segment, run, AreHarmless, run-init,
}
use vecodex.Tests.Segments.{base, rand}

-- The erased vector is the only one of the last segment.
abbrev calls : List (Call base rand)
calls =
    adds ((1, 10) ∷ [])
    ∷ erases (1 ∷ [])
    ∷ adds ((2, 20) ∷ (3, 30) ∷ (4, 40) ∷ (5, 50) ∷ [])
    ∷ pushes (record { seg_id = 9; index = create flat })
    ∷ erases_segment 100
    ∷ []

calls-AreHarmless : AreHarmless base rand calls (init base rand 2 true)
unfolding add init create_last add_loop create add_batch register insert lookup ℕ_discrete fill_last
    close_last storage_add Segment.add_vector_batch merge_if_enabled merge erase_batch include size
calls-AreHarmless = ((omega arith, omega arith), tt)

run-init_example :
    IsStable base rand (run base rand calls (init base rand 2 true))
    × ((vs : List (ℕ × ℕ))
        → (add base rand vs (run base rand calls (init base rand 2 true))).0 ≡ finished)
run-init_example = run-init base rand calls 2 true (omega arith) (omega arith) calls-AreHarmless
