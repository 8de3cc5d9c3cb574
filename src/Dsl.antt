-- ===== src/Dsl.antt =====
-- internal/dsl: the suite a user writes, and the ladder of tiers.
pub mod Types
pub mod Assertion
pub mod Suite
pub mod Capability
pub mod Ceiling
