-- ===== src/Lib.antt =====
-- A model of vecodex, a distributed vector search engine, and what it is proved to do.
--
-- The program has an index library (index/include, index/baselines) and services over it (app/src,
-- app/include). An Index holds segments, each a vector index of a third party (faiss) with tables
-- of external identifiers. Index::add fills the last segment and closes it at a threshold;
-- SegmentStorage sorts the closed segments into levels by size and merges neighbours; a search asks
-- every segment and keeps the k best answers in an ordered set.
--
-- Files:
-- - Prelude: shared names; lists and maps over the native numbers; orders given by a test.
-- - BaseIndex: IBaseIndex (index/include/IBaseIndex.h) as an interface of operations and laws.
-- - FaissIndex: baseline::FaissIndex (index/baselines/faiss.h): `create`, `add_batch`,
--   `single_search`, `merge_from_other`, `erase_batch`, `size`. `ids_`, `inv_ids_` and `erased_`
--   are lists in the order of insertion. Its children prove the invariant of the tables (Numbering,
--   Validity, History), what a search returns (Sorting, Soundness, Counting, Completeness), what
--   erasing hides (Erasure), what `size` reports (Sizes), and the interface (Interface).
-- - Binary, FaissIndex/Files, Segment/Files: writeBinary and readBinary (index/baselines/io.h),
--   serialize_index and the constructor that reads (faiss.h, Segment.h), SerializeSegment and
--   DeserealizeSegment (index/baselines/IndexFactory.h). A file is a list of bytes, and reading
--   gives a value and what follows it. FaissIndex/Files/Restoring relates them to calls.
-- - TopK: SearchResult (index/include/Segment.h) and the set `kth_stat` of Index::search.
-- - Segment: Segment (index/include/Segment.h).
-- - Index/State, Index/Storage, Index/Operations: IIndex with its SegmentStorage and Index
--   (index/include/IIndex.h, Index.h). A shared_ptr is a number, and a heap maps it to its segment,
--   so that a segment in a level and in `segments_` is one object. Filling, Adding, Levels,
--   Searching, Erasing and Merging hold the proofs; Pointers, Scanning, Keeping and History prove
--   the invariant of the last segment over any calls.
-- - Index/Executor: StartExecutor, StopExecution and the asynchronous calls of IIndex as steps of a
--   thread and of its callers, over a boost context that is a parameter (`IoContext`). Idling holds
--   the proofs.
-- - IndexFactory: CreateIndex (index/baselines/IndexFactory.h) over a parsed configuration.
-- - Numerals: std::to_string and std::hex.
-- - StorageClient: StorageClient (app/src/StorageClient.cpp) over an S3 storage and a hash that are
--   parameters; a working directory is a map from names to bytes. Naming and Transferring hold the
--   proofs.
-- - PrometheusExposer: PrometheusExposer (app/include/utils/PrometheusExposer.h) over a registry
--   that is a parameter. A call of IncrementCounter is up to three steps, each under the lock, and
--   threads take them in any order. Counting, Interleaving and Gauges hold the proofs.
-- - BootstrapConfig: BootstrapConfig (app/include/BootstrapConfig.h) and main (app/src/main.cpp)
--   over a JSON library that is a parameter. Overriding, Parsing and Starting hold the proofs.
-- - Coordinator/Fraction, Coordinator/Merging, Coordinator/Stats: the merging of answers
--   (app/include/Merging.h) and StatsManager (app/include/utils/Stats.h). A double is an exact
--   fraction, and entries of equal score stand in the order of insertion.
-- - Coordinator/Handler: CoordinatorImpl (app/src/Coordinator.cpp) over an interface to etcd
--   (`Etcd`) and a function that says what a searcher answers at its n-th call, and how long it
--   takes. The mutex makes a request one step. Answering, Asking, Lagging and Updating hold the
--   proofs.
-- - EtcdClient: EtcdClient (app/src/EtcdClient.cpp) over a server that is a parameter (`Server`),
--   with the layout of its keys; `coordinator_etcd` is the interface that the coordinator uses.
--   Splitting and Listing hold the proofs.
-- - Writer: WriterImpl (app/src/Writer.cpp): ProcessWriteRequest, updateIndexesState and
--   chooseShard, over the operations of an index (`IndexOps`) and what etcd answers meanwhile
--   (`EtcdView`). Choosing, Updating, Updating/Looping and Writing hold the proofs; Keeping and
--   Running are about what the writer keeps of every index from its constructor on, and Indexes
--   puts the model of Index in for the operations. Writer/Publishing is what a task of
--   indexUpdateCallback does with the storage, etcd and the searchers; Storing and Informing hold
--   its proofs. Writer/Callbacks has the tasks in the queue of callback_runner, and requests and
--   turns of its thread as steps in any order (`Step`); Following and Targeting say which indexes
--   updateIndexesState and the rest of a request change, Logged, Continuing and Ordering which
--   tasks there are, Current what a task finds when it runs, and Joining is about the destructor.
-- - Searcher: SearcherImpl (app/src/Searcher.cpp): its handlers and its registration, over the
--   operations of an index (`SearcherOps`) and a storage that gives segments. Answering, Updating
--   and Registering hold the proofs. Serving has the constructor, Init and GracefulShutdown over
--   etcd; Creating holds the proofs of the first, and Discovering goes from there to the
--   coordinator's handler, with etcd between them; Fetching reads the segments from the storage;
--   Indexes puts the model of Index in for the operations; Finding joins the writer's callback, the
--   update and the search.
-- - RpcClients: BaseClient, SearcherClient and WriterClient (app/src/BaseClient.cpp,
--   app/src/SearcherClient.cpp, app/src/WriterClient.cpp) over generated stubs that are parameters.
--   Origin joins the coordinator's handler with the searchers'.
-- - Samples, Tests: an exhaustive faiss index over numbers, instances of the theorems, and runs.
--
-- Conventions. A block of d_ floats is one value of a type of vectors, so that the pointers `ids`
-- and `vectors` of a call are one list of pairs. Distances and identifiers are types with a strict
-- total order: a distance is not NaN. `size_t` differences wrap at 2 ^ 64; sums of sizes and
-- counters are below it otherwise. `rand` is a sequence of numbers, and a counter says how many
-- were drawn. The update callback of an index is a log of its calls, which only grows
-- (Index/Logging); Writer/Callbacks makes tasks of them. An operation of Index holds its lock
-- throughout and is one step; the locks of a segment are left out. The order in which C++ iterates
-- over an unordered map is not specified: here it is the order of insertion. An empty row that
-- operator[] of a map of maps leaves behind is not kept.
--
-- Fuel. The loop of Index::add runs on the number of vectors, the loop of SegmentStorage::add on
-- the 63 shifts of a long long, and the loop over the levels in SegmentStorage::merge on the levels
-- and the pointers in them: none of these loops can take more turns.
--
-- faiss is a parameter (`Faiss`): a search returns distances with labels, and no label stands for
-- -1. `Exhaustive` states what faiss documents of a flat index, and Samples has an index that meets
-- it.
--
-- `Binary` is what a file format of faiss, or of an identifier, has to offer: what is written is
-- read back.
--
-- faiss, boost::asio, the AWS client, the etcd client, prometheus, argparse and the JSON library
-- are not part of the repository: each is a parameter, and what the code relies on of it is a
-- record of named laws next to its use (`IsContext`, `IsStorage`, `IsEtcd`, `IsListing`, `IsUp`,
-- `IsServed`, `IsRegistry`, `HasGauges`, `IsJsonLib`). Samples and Tests have an instance of each.
-- The working directory of a searcher has no file of the name of a segment that it fetches; of a
-- file, a segment is read to its end.
--
-- Not modelled: the servers of gRPC, which listen and wait, the channels of its clients, and what
-- the program prints.
pub mod Prelude
pub mod Binary
pub mod Numerals
pub mod StorageClient
pub mod PrometheusExposer
pub mod BootstrapConfig
pub mod IndexFactory
pub mod TopK
pub mod BaseIndex
pub mod FaissIndex
pub mod Segment
pub mod Index
pub mod Coordinator
pub mod EtcdClient
pub mod Writer
pub mod Searcher
pub mod RpcClients
pub mod Samples
pub mod Tests
