-- ===== src/Index/Adding.antt =====
-- Index::add as a whole: the loop, the callback and the merge.
use vecodex.Prelude.{
  ℕ, ◌≡◌, ap, ◌∙◌, List, [], length, Key, Bool-cases, inl, inr, if◌then◌else◌, arith,
}
use vecodex.BaseIndex.{IBaseIndex}
use vecodex.Index.State.{Index, finished, add_loop, call_back}
use vecodex.Index.Operations.{add, finish_add, merge_if_enabled, merge_amount}
use vecodex.Index.Storage.{is_empty}
use vecodex.Index.Filling.{IsReady, add_loop_lem}
use vecodex.Index.Merging.{merge_total}

module _ {IdType Vec Dist : Type 0} (B : IBaseIndex IdType Vec Dist) ⦃e : Key IdType⦄
    (rand : ℕ → ℕ) where
  merge_if_enabled_finished : (s : Index B) → (merge_if_enabled B rand s).0 ≡ finished
  unfolding merge_if_enabled
  merge_if_enabled_finished s = elim (Bool-cases s.enable_merge) [
    | inl q ↦ let (s', r) = merge_total B rand merge_amount s in ground (arith, q, r)
    | inr q ↦ ground (arith, q)
  ]

  -- From an index whose last segment is sound and has room, Index::add takes in any vectors without
  -- throwing, and its loop and the merge after it end.
  pub add_finished :
      (vs : List (IdType × Vec)) (s : Index B) → IsReady B rand s → (add B rand vs s).0 ≡ finished
  unfolding add finish_add
  add_finished vs s r =
      let filled = add_loop_lem B rand (length vs) vs [] s (omega arith) r tt in
      let t = add_loop B rand (length vs) vs [] s in
      ap (λ status. (finish_add B rand status t.1 t.2).0) (filled.0)
      ∙ merge_if_enabled_finished (if is_empty t.1 then t.2 else call_back B rand [] t.1 t.2)
