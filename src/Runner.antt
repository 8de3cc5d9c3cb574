-- ===== src/Runner.antt =====
-- internal/runner: which tests run, on what, and how.
pub mod Gate
pub mod Documents
pub mod Evaluate
pub mod Hooks
pub mod Apply
pub mod OneTest
pub mod Protocol
pub mod OneFile
pub mod Parallel
pub mod Expand
pub mod Namespace
pub mod Samples
