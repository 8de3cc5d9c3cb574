-- ===== src/Matchers.antt =====
-- internal/matchers: the registry of matchers and the tiers at which they run.
pub mod Registry
pub mod Tiers
