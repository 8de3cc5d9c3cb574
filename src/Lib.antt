-- ===== src/Lib.antt =====
-- vigie: a test runner for Helm charts (Go). This library models the program's pure core.
--
-- The program reads test suites (internal/dsl), renders the chart, expands each test's matrix
-- (internal/matrix), installs the suite's dependencies in the order of their dependsOn graph
-- (internal/deps), evaluates each assertion's matcher on the rendered documents
-- (internal/matchers, internal/path, internal/snapshot) and reports the results. What an assertion
-- needs of the cluster is checked twice: when the suite is read, against the tier that it declares
-- (internal/dsl/tier_ceiling.go), and before each test, against the tier of the cluster that the run
-- has (internal/matchers/tiers.go, internal/runner/tiergate.go).
--
-- Prelude and the modules below it hold the shared names and the lemmas on tests, lists, counting,
-- Go's int and texts. Value models Go's `any` as the YAML decoder fills it.
--
-- Dsl.Types, Dsl.Assertion and Dsl.Suite follow the structs of internal/dsl/types.go; a pointer is an
-- Option. Dsl.Capability follows internal/dsl/capability.go, with the map of the matchers' needs as
-- the struct tags of Assertion declare it; reading the tags by reflection is not modelled.
-- Dsl.Ceiling follows internal/dsl/tier_ceiling.go: validate_tier_ceiling, first_unmet_matcher and
-- reads_live_state are the functions of those names; Ladder proves what the tiers are, Checked and
-- Refused what a pass and an error mean, Live how ReadsLiveState and the template tier agree.
--
-- Deps.Dag follows internal/deps/dag.go: validate_names, topo_sort (Kahn's algorithm over a queue),
-- build_cycle_error, build_level_batches and build_batches are the functions of those names. The
-- children Release, Loop, Order and Sorted prove the loop's invariants, Acyclic and Cycles what a
-- success and a refusal mean, Staging, Grouping and Batches the level batches, Plan the whole.
-- The loop over the queue has fuel, one round for each dep; a theorem says that it never runs out.
-- A Go map that is only read by key is a function; where the program iterates over a map, the order
-- is a parameter `range` of which it is assumed that each key comes exactly once.
-- Deps.Refs follows internal/deps/source_ref.go (resolve_refs); the reading of a file is the
-- parameter `load`, and the program's own depth limit is the bound of the recursion.
-- Deps.Exports follows internal/deps/export.go. Deps.Engine follows internal/deps/engine.go: install,
-- install_batch, install_one and teardown are the functions of those names, each with the list of
-- what it did to the cluster. What the cluster answers is the record Env. The goroutines of a batch
-- are modelled by the slice of errors that they fill, not by their interleavings; the polling of
-- internal/deps/wait.go is not modelled. Deps.Secret follows internal/deps/source_secret.go: Secret has the
-- sources of a key's value with their fallbacks and the list of what is read for them, Secret.Apply the writing
-- and the removal of the object with the list of what the cluster is asked; nil and empty bytes are kept apart.
-- Deps.Cache follows internal/deps/cache.go: is_cached, store_record and delete_record pass on a state of
-- ConfigMaps behind the record Store, whose laws are Recorded.IsConsistent.
--
-- Matchers.Registry follows internal/matchers/registry.go and matcher.go, and Matchers.Tiers
-- internal/matchers/tiers.go with the tiers of quantifier.go. A matcher is its name and its test of
-- an assertion; a panic is a value. Runner.Gate follows internal/runner/tiergate.go; the text of a
-- reason is a value with the parts that the text names.
--
-- Path follows internal/path/path.go: parse, with fuel of one round for each character, and get. The
-- standard library's IndexByte, TrimSpace and Atoi are written out as far as parse uses them.
--
-- Matrix follows internal/matrix/matrix.go: expand, cartesian, matches_exclude and is_subset. An
-- iteration over a map meets its entries in the order of Fields; the panic of == on two lists or two
-- maps is a value. Matrix.Cases follows internal/matrix/cases.go. Snapshot.Normal follows
-- internal/snapshot/normalize.go, and Snapshot.Rules has the rules of a normalized document apart from it.
--
-- Http follows internal/matchers/http.go. The structs of the assertion are those of Dsl.Assertion; Types has an error and a
-- message of the code as values; JsonPath evalJSONPath, with fuel of one step for each character, which a
-- theorem says is enough; Nodes what is chosen from the cluster's objects; Target, Forward and Routes the
-- resolution of the target; Check the conditions on a response; Exchange one request; Retry evalHTTP. What
-- happens on the way (a port forward opened and closed, a sleep, a request) is a list of events. The
-- Kubernetes client, the port forwarder, net/http, net/url, encoding/json, regexp, time.ParseDuration, the
-- verb %v and CEL are the records Remote, Library and Network, of which nothing is assumed; fmt.Sscanf with
-- %d is written out. How often an Ingress is polled is a parameter; the counter of the attempts does not
-- overflow, since it is bounded by an int that it starts far below. An assertion that is changed is passed
-- on: the Host that the ingress mode sets stays in the assertion that Resolved holds.
--
-- Runner.Documents follows the selection of a document in internal/runner/runner.go, Runner.Evaluate
-- internal/runner/assert.go, and Runner.Hooks internal/runner/lifecycle.go. Runner.Apply, Runner.OneTest and
-- Runner.OneFile follow internal/runner/apply.go: run_test is runTest and run_file is runFile, each with a
-- list of events and with what it defers; the deps are installed and torn down by Deps.Engine. Runner.Protocol
-- has the steps that such a list may take: what each acquires, releases and leaves. matchers.Evaluate passes,
-- fails or panics. The cluster, Helm, the shell and matchers.Evaluate are the record
-- World, of which nothing is assumed. Runner.Expand follows expandTests of internal/runner/runner.go, over the
-- models of the matrix and the cases; interpolateTest is a parameter. Runner.Parallel follows
-- internal/runner/parallel.go with the work that runner.go and apply.go hand to it: each file is a task of a
-- step relation, in which any goroutine may go next; a run of n files makes at most 4 n + 1 steps. What a file
-- answers is a relation of the record Setting, and a panic of a file is left out. Runner.Namespace is allocateNamespace, on the numbers of characters.
--
-- Not modelled: the command line, rendering by Helm, CEL and JSON Schema evaluation, the cluster back
-- ends and other I/O; interpolation, the store of snapshots, the lint engine and the evaluation of the
-- matchers other than http.
pub mod Prelude
pub mod Value
pub mod Dsl
pub mod Deps
pub mod Http
pub mod Matchers
pub mod Runner
pub mod Path
pub mod Matrix
pub mod Snapshot
