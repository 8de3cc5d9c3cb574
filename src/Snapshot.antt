-- ===== src/Snapshot.antt =====
-- internal/snapshot: documents as they are compared with a stored snapshot.
pub mod Normal
pub mod Stripped
pub mod Rules
pub mod Samples
