-- ===== src/Tests/Writer.antt =====
-- Requests at a writer with one index of two shards.
use vecodex.Prelude.{
  ℕ, ◌+◌, ◌≡◌, refl, true, false, none, some, List, [], ◌∷◌, nat_key, nat_order, lookup, has_key,
  insert, member, ltb, All, ℕ_discrete, if◌then◌else◌,
}
use vecodex.Coordinator.Handler.{shards_of, set_shard}
use vecodex.Writer.{
  IndexOps, EtcdView, WriteRequest, WriterImpl, ok, crash, choose_shard, better, keep_listed,
  add_missing, update_listed, update_indexes, vectors_of, process_write_request,
}
use vecodex.Writer.Updating.Looping.{shard_after, update_indexes_lem}
use vecodex.Writer.Writing.{Reaches, process_write_request-adds, process_write_request-deletes}

-- An index is the list of its documents.
abbrev lists : IndexOps ℕ ℕ ℕ ℕ
lists = record {
  Ix = List (ℕ × ℕ);
  create = λ config. some [];
  set_update_callback = λ i s x. x;
  add = λ i v x. (true, (i, v) ∷ x);
  erase = λ i x. (true, x);
}

abbrev time : ℕ → ℕ
time s = if ltb s 2 then 9 else 4

abbrev view : EtcdView ℕ ℕ
view = record {
  list_shard_ids = λ i. some (1 ∷ 2 ∷ []);
  average_response_time = λ i s. some (time s);
}

chosen : choose_shard view 0 ((1, true) ∷ (2, true) ∷ []) none ≡ some (some (2, 4))
unfolding choose_shard better
chosen = refl

-- The shard 3 is no longer listed.
abbrev before : WriterImpl lists
before = record {
  indexes_create_args = (0, 5) ∷ [];
  shards = (0, (1, (8, 8) ∷ []) ∷ (3, []) ∷ []) ∷ [];
  buckets = [];
  requests_count = 0;
  vectors_count = [];
}

update_indexes_lem_example :
    (w' : WriterImpl lists) × (update_indexes lists view ((0, 5) ∷ []) before ≡ (true, w'))
    × ((i t : ℕ)
        → lookup t (shards_of i w'.shards)
          ≡ shard_after lists view
              (λ i. 1 ∷ 2 ∷ [])
              (λ config. [])
              i
              t
              (lookup i ((0, 5) ∷ []))
              (lookup t (shards_of i before.shards)))
unfolding has_key
update_indexes_lem_example =
    update_indexes_lem lists view (λ i. 1 ∷ 2 ∷ []) (λ config. []) ((0, 5) ∷ []) before (λ i. refl)
      (λ config. refl) (refl, tt)

abbrev after : WriterImpl lists
after = record before { shards = (0, (1, (8, 8) ∷ []) ∷ (2, []) ∷ []) ∷ []; requests_count = 1 }

abbrev adding : WriteRequest ℕ ℕ ℕ
adding = record { index_id = some 0; delete = false; id = 6; vector_data = 7 }

abbrev deleting : WriteRequest ℕ ℕ ℕ
deleting = record { index_id = some 0; delete = true; id = 8; vector_data = 7 }

updates_lem :
    update_indexes lists view before.indexes_create_args (record before { requests_count = 1 })
    ≡ (true, after)
unfolding update_indexes update_listed add_missing keep_listed shards_of lookup has_key insert
    member ℕ_discrete
updates_lem = refl

adding-Reaches : Reaches lists 99 view adding 0 time before after 1 ((8, 8) ∷ []) ((2, []) ∷ [])
unfolding shards_of lookup has_key ℕ_discrete
adding-Reaches = record {
  updates = updates_lem;
  names_index = refl;
  has_index = refl;
  has_shards = refl;
  has_times = λ s. refl;
}

deleting-Reaches : Reaches lists 99 view deleting 0 time before after 1 ((8, 8) ∷ []) ((2, []) ∷ [])
unfolding shards_of lookup has_key ℕ_discrete
deleting-Reaches = record {
  updates = updates_lem;
  names_index = refl;
  has_index = refl;
  has_shards = refl;
  has_times = λ s. refl;
}

process_write_request-adds_example :
    (s : ℕ) × (x : List (ℕ × ℕ)) × (lookup s ((1, (8, 8) ∷ []) ∷ (2, []) ∷ []) ≡ some x)
    × All
        (λ (p : ℕ × List (ℕ × ℕ)). ltb (time p.0) (time s) ≡ false)
        ((1, (8, 8) ∷ []) ∷ (2, []) ∷ [])
    × (process_write_request lists 99 view adding before ≡ (
      ok,
      record after {
        shards = set_shard 0 s ((6, 7) ∷ x) after.shards;
        vectors_count = set_shard 0 s (vectors_of lists 0 s after + 1) [];
      },
    ))
process_write_request-adds_example =
    process_write_request-adds lists 99 view adding 0 time before after 1 ((8, 8) ∷ [])
      ((2, []) ∷ []) adding-Reaches refl

process_write_request-deletes_example :
    process_write_request lists 99 view deleting before ≡ (crash, after)
unfolding has_key ℕ_discrete
process_write_request-deletes_example =
    process_write_request-deletes lists 99 view deleting 0 time before after 1 ((8, 8) ∷ [])
      ((2, []) ∷ []) deleting-Reaches refl refl
