-- ===== src/Http.antt =====
-- internal/matchers/http.go: the http matcher.
pub mod Types
pub mod JsonPath
pub mod Nodes
pub mod Target
pub mod Forward
pub mod Routes
pub mod Check
pub mod Exchange
pub mod Retry
pub mod Samples
