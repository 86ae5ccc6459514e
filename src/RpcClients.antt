-- ===== src/RpcClients.antt =====
-- BaseClient, SearcherClient and WriterClient (app/src/BaseClient.cpp, app/src/SearcherClient.cpp,
-- app/src/WriterClient.cpp), and how the coordinator and the writer call them. The generated stubs are
-- parameters.
pub mod Origin
use vecodex.Prelude.{ℕ, Bool, true, false, Option, none, some, List, if◌then◌else◌, ◌==◌}
use vecodex.EtcdClient.{Text}
use vecodex.Coordinator.Handler.{SearchRequest, Asked}
use vecodex.Searcher.{UpdateRequest}
use vecodex.Writer.Publishing.{Searchers}

-- What a method of a stub gives: the code of the status, which is 0 for OK, and the response.
pub record Reply (Response : Type 0) : Type 0 where
  pub error_code : ℕ
  pub response : Response

abbrev pub is_ok : {Response : Type 0} → Reply Response → Bool
is_ok reply = reply.error_code == 0

module _ {Request Response : Type 0} (method : Request → Reply Response) where
  -- `none` is an exception.
  unfoldable pub get_processed_documents : Request → Option Response
  get_processed_documents request =
      let reply = method request in if is_ok reply then some reply.response else none

  unfoldable pub update_index : Request → Option Response
  update_index request =
      let reply = method request in if is_ok reply then some reply.response else none

  unfoldable pub write_document : Request → Option Response
  write_document request =
      let reply = method request in if is_ok reply then some reply.response else none

-- AskSingleSearcher, at the `n`-th call of a searcher. `stub` is the method ProcessSearchRequest of the
-- stub for an address, and `time` says how long the call takes.
unfoldable pub ask_single_searcher :
    {Name Vec DocId : Type 0}
    → (Name → ℕ → SearchRequest Name Vec → Reply (List DocId))
    → (Name → ℕ → ℕ)
    → Name
    → SearchRequest Name Vec
    → ℕ
    → Asked DocId
unfolding get_processed_documents
ask_single_searcher stub time addr request n = record {
  answer = get_processed_documents (stub addr n) request;
  time = time addr n;
}

abbrev has_value : {A : Type 0} → Option A → Bool
has_value none = false
has_value (some a) = true

-- The searchers as the writer reaches them. `stub` is the method ProcessUpdateRequest of the stub for a
-- host, and `deliver` what the call does.
abbrev pub searchers_of :
    (World : Type 0)
    → (Text → World → UpdateRequest Text → Reply (Unit {0}))
    → (Text → UpdateRequest Text → World → World)
    → Searchers
searchers_of World stub deliver = record {
  World = World;
  update_index = λ host request world.
      (has_value (update_index (stub host world) request), deliver host request world);
}
