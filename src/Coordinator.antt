-- ===== src/Coordinator.antt =====
-- The coordinator (app/src/Coordinator.cpp, app/include): it asks searchers and merges answers.
pub mod Fraction
pub mod Merging
pub mod Stats
pub mod Handler
