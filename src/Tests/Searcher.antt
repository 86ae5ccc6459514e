-- ===== src/Tests/Searcher.antt =====
-- Requests at a searcher with two shards of one index.
use vecodex.Prelude.{
  ℕ, ◌≡◌, refl, none, some, List, [], ◌∷◌, nat_key, lookup, insert, take, ℕ_discrete,
}
use vecodex.Coordinator.Handler.{SearchRequest, shards_of, set_shard}
use vecodex.Searcher.{
  SearcherOps, SearcherImpl, UpdateRequest, answer, process_search_request, process_update_request,
}
use vecodex.Searcher.Answering.{joined}
use vecodex.Searcher.Updating.{entry_after, process_update_request_lem}
use vecodex.Searcher.Registering.{Request, search, update, serve}

-- An index is the list of its segments, and finds their numbers.
abbrev lists : SearcherOps ℕ ℕ ℕ
lists = record {
  Ix = List ℕ;
  Seg = ℕ;
  create = λ config. some [];
  search = λ q k x. some (take k x);
  push_segment = λ segment x. segment ∷ x;
  erase_segment = λ id x. x;
}

abbrev serving : SearcherImpl ℕ lists
serving = record {
  shards = (0, (1, 5 ∷ 6 ∷ 7 ∷ []) ∷ (2, 8 ∷ []) ∷ []) ∷ [];
  requests_count = 0;
  updates_count = [];
}

abbrev everywhere : SearchRequest ℕ ℕ
everywhere = record { index_id = 0; shard_id = none; k = 2; vector_data = 4 }

three_documents : joined lists 4 2 (take 2) (shards_of 0 serving.shards) ≡ 5 ∷ 6 ∷ 8 ∷ []
unfolding shards_of lookup ℕ_discrete
three_documents = refl

abbrev change : UpdateRequest ℕ
change = record { index_id = 0; shard_id = 2; added = 3 ∷ 4 ∷ []; deleted = 8 ∷ [] }

serving_shard : lookup 2 (shards_of 0 serving.shards) ≡ some (8 ∷ [])
unfolding shards_of lookup ℕ_discrete
serving_shard = refl

process_update_request_lem_example :
    (w' : SearcherImpl ℕ lists) × (process_update_request lists (λ i id. some id) change serving
      ≡ answer w')
    × ((j t : ℕ)
        → lookup t (shards_of j w'.shards) ≡ entry_after 0 2 (4 ∷ 3 ∷ 8 ∷ []) serving.shards j t)
process_update_request_lem_example =
    process_update_request_lem lists (λ i id. some id) (3 ∷ 4 ∷ []) change (8 ∷ []) serving
      (refl, (refl, tt)) serving_shard

abbrev changed : SearcherImpl ℕ lists
changed = record {
  shards = (0, (1, 5 ∷ 6 ∷ 7 ∷ []) ∷ (2, 4 ∷ 3 ∷ 8 ∷ []) ∷ []) ∷ [];
  requests_count = 1;
  updates_count = (0, (2, 1) ∷ []) ∷ [];
}

abbrev requests : List (Request ℕ lists)
requests = search everywhere ∷ update (λ i id. some id) change ∷ []

serve_run : serve lists requests serving ≡ answer changed
unfolding process_update_request process_search_request set_shard shards_of lookup insert ℕ_discrete
serve_run = refl
