-- ===== src/Searcher/Answering.antt =====
-- ProcessSearchRequest of a searcher over all shards of an index.
use vecodex.Prelude.{
  ℕ, ◌+◌, ◌*◌, ◌≤◌, ◌≡◌, refl, ap, ◌∙◌, none, some, List, [], ◌∷◌, ◌++◌, Key, length, length-append,
  arith, ◌>>=◌,
}
use vecodex.Coordinator.Handler.{SearchRequest, shards_of}
use vecodex.Searcher.{SearcherOps, SearcherImpl, answer, search_all, process_search_request}

module _ {Config DocId Vec Name : Type 0} (O : SearcherOps Config DocId Vec) ⦃e : Key Name⦄
    (q : Vec) (k : ℕ) (found : O.Ix → List DocId) where
  -- What the shards find, one after the other.
  abbrev pub joined : List (Name × O.Ix) → List DocId
  joined [] = []
  joined ((s, x) ∷ shards) = found x ++ joined shards

  search_all_lem :
      (shards : List (Name × O.Ix))
      → ((x : O.Ix) → O.search q k x ≡ some (found x))
      → search_all O q k shards ≡ some (joined shards)
  unfolding search_all
  search_all_lem [] h = refl
  search_all_lem ((s, x) ∷ shards) h =
      ap (λ r. r >>= (λ l. search_all O q k shards >>= (λ l'. some (l ++ l')))) (h x)
      ∙ ap (λ r. r >>= (λ l'. some (found x ++ l'))) (search_all_lem shards h)

  length-joined :
      (shards : List (Name × O.Ix))
      → ((x : O.Ix) → length (found x) ≤ k)
      → length (joined shards) ≤ k * length shards
  length-joined [] h = omega arith
  length-joined ((s, x) ∷ shards) h =
      let n = length-append (found x) (joined shards) in
      let b = h x in let r = length-joined shards h in omega arith

  -- If no index throws and each finds at most `k` documents, a search that names no shard answers
  -- with what the shards of the index find, one after the other: at most `k` for every shard, and
  -- not cut to `k`.
  pub process_search_request_all :
      (request : SearchRequest Name Vec) (w : SearcherImpl Name O)
      → ((x : O.Ix) → O.search q k x ≡ some (found x))
      → ((x : O.Ix) → length (found x) ≤ k)
      → request.vector_data ≡ q
      → request.k ≡ k
      → request.shard_id ≡ none
      → let shards = shards_of request.index_id w.shards in
        (process_search_request O request w
          ≡ (answer (joined shards), record w { requests_count = w.requests_count + 1 }))
        × (length (joined shards) ≤ k * length shards)
  unfolding process_search_request
  process_search_request_all request w h b v n s =
      let shards = shards_of request.index_id w.shards in
      (rw (process_search_request, s, v, n, search_all_lem shards h) refl, length-joined shards b)
