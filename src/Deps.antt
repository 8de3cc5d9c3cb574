-- ===== src/Deps.antt =====
-- internal/deps: the dependencies of a suite, from the `dependsOn` graph to install and teardown.
pub mod Dag
pub mod Refs
pub mod Exports
pub mod Engine
pub mod Secret
pub mod Cache
