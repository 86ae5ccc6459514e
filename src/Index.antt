-- ===== src/Index.antt =====
-- The index over many segments: vecodex::IIndex and vecodex::Index (index/include).
pub mod State
pub mod Storage
pub mod Operations
pub mod Filling
pub mod Adding
pub mod Levels
pub mod Searching
pub mod Erasing
pub mod Merging
pub mod Pointers
pub mod Scanning
pub mod Keeping
pub mod History
pub mod Logging
pub mod Executor
