-- ===== src/Tests/Library.antt =====
-- A document written to an index of the library.
use vecodex.Prelude.{
  ℕ, ◌+◌, ◌≡◌, refl, true, false, some, List, [], ◌∷◌, nat_key, nat_order, lookup, has_key, insert,
  member, ℕ_discrete, arith,
}
use vecodex.Index.State.{Index, init}
use vecodex.Index.Operations
use vecodex.Coordinator.Handler.{shards_of, set_shard}
use vecodex.Writer.{
  EtcdView, WriteRequest, WriterImpl, ok, keep_listed, add_missing, update_listed, update_indexes,
  vectors_of, process_write_request, IndexOps, create_writer, create_args, better, choose_shard,
  add_vector, answer_write,
}
use vecodex.Writer.Writing.{Reaches}
use vecodex.Writer.Keeping.{AllValues}
use vecodex.Writer.Running.{run_writes}
use vecodex.Writer.Indexes.{library, IndexConfig, IsValidConfig, process_write_request-run_writes}
use vecodex.Tests.Segments.{base, rand}

abbrev view : EtcdView ℕ ℕ
view = record { list_shard_ids = λ i. some (1 ∷ []); average_response_time = λ i s. some 3 }

abbrev lib : IndexOps ℕ IndexConfig ℕ ℕ
lib = library ℕ base rand

abbrev items : List (ℕ × IndexConfig)
items = (0, record { threshold = 2; enable_merge = true }) ∷ []

abbrev request : WriteRequest ℕ ℕ ℕ
request = record { index_id = some 0; delete = false; id = 6; vector_data = 7 }

-- One document before.
abbrev requests : List (EtcdView ℕ ℕ × WriteRequest ℕ ℕ ℕ)
requests = (view, record request { id = 5 }) ∷ []

abbrev before : WriterImpl lib
before = run_writes lib 99 requests (create_writer lib view items).1

-- The index of the shard 1 then.
abbrev holding : Index base
holding =
    (Operations.add base rand ((5, 7) ∷ [])
      (Operations.set_update_callback base rand (init base rand 2 true))).1

abbrev after : WriterImpl lib
after =
    (update_indexes lib view before.indexes_create_args
      (record before { requests_count = before.requests_count + 1 })).1

request-Reaches : Reaches lib 99 view request 0 (λ s. 3) before after 1 holding []
unfolding process_write_request answer_write choose_shard better add_vector create_writer
    create_args update_indexes update_listed add_missing keep_listed set_shard shards_of lookup
    has_key insert member ℕ_discrete
request-Reaches = record {
  updates = refl;
  names_index = refl;
  has_index = refl;
  has_shards = refl;
  has_times = λ s. refl;
}

items-valid : AllValues IsValidConfig items
items-valid = ((omega arith, omega arith), tt)

process_write_request-run_writes_example :
    (s : ℕ) × (x : Index base) × (lookup s ((1, holding) ∷ []) ≡ some x)
    × (process_write_request lib 99 view request before ≡ (
      ok,
      record after {
        shards = set_shard 0 s (Operations.add base rand ((6, 7) ∷ []) x).1 after.shards;
        vectors_count = set_shard 0 s (vectors_of lib 0 s after + 1) after.vectors_count;
      },
    ))
process_write_request-run_writes_example =
    process_write_request-run_writes base rand 99 view request 0 (λ s. 3) view items requests after
      1 holding [] items-valid (refl, tt) request-Reaches refl
