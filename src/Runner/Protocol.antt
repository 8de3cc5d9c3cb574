-- ===== src/Runner/Protocol.antt =====
-- internal/runner/apply.go: what a run holds of the cluster, as a stack, what it
-- leaves there, and the steps that change both.
use mathlib.Core.List.{reverse}
use vigie.Prelude.{String, ◌≡◌, Bool, true, false, List, [], ◌∷◌, ◌++◌}
use vigie.Deps.Engine.{Attempt, Action, InstallState}
use vigie.Deps.Dag.{names}
use vigie.Deps.Engine.Dismantling.{removals, removable}
use vigie.Runner.Hooks.{Stage, before_all, setup, teardown, after_all}
use vigie.Runner.Apply.{
  Event, namespace_made, namespace_refused, namespace_deleted, deps_installed, deps_refused,
  cluster_deps_installed, deps_removed, ran_hooks, chart_rendered, chart_installed,
}

pub data Resource : Type 0 where
  namespace : String → Resource
  deps : InstallState → Resource
  -- the hooks that tear down what setup hooks have set up, of a test and of the suite
  test_hooks : Resource
  suite_hooks : Resource

-- What is done to the cluster and no step undoes by itself: what an Install did that failed, what the Install of
-- the deps of the scope cluster did, what the install of the chart did, and what hooks did of which one failed.
-- What of it lies in the namespace of the test goes with the namespace.
pub data Remainder : Type 0 where
  of_failed_install : List Attempt → Remainder
  of_cluster_deps : List Attempt → Remainder
  of_chart : (ok : Bool) → Remainder
  of_failed_hooks : Stage → Remainder

-- An event takes what is held to what is held then, and leaves a remainder. A resource is released when it is
-- the last that was acquired; deps are released by the removal of each that has something to tear down, the last
-- installed first. A chart is rendered and installed where the setup hooks of the test have run.
pub data Step : List Resource → Event → List Resource → List Remainder → Type 0 where
  make_namespace :
      {held : List Resource} (ns : String) → Step held (namespace_made ns) (namespace ns ∷ held) []
  refuse_namespace : {held : List Resource} (ns : String) → Step held (namespace_refused ns) held []
  delete_namespace :
      {held : List Resource} (ns : String)
      → Step (namespace ns ∷ held) (namespace_deleted ns) held []
  install_deps :
      {held : List Resource} (made : List Attempt) (s : InstallState)
      → Step held (deps_installed made s) (deps s ∷ held) []
  leave_deps :
      {held : List Resource} (made : List Attempt)
      → Step held (deps_refused made) held (of_failed_install made ∷ [])
  remove_deps :
      {held : List Resource} (s : InstallState) (actions : List Action)
      → removals actions ≡ names (removable (reverse s.installed))
      → Step (deps s ∷ held) (deps_removed s actions) held []
  leave_cluster_deps :
      {held : List Resource} (made : List Attempt)
      → Step held (cluster_deps_installed made) held (of_cluster_deps made ∷ [])
  set_up : {held : List Resource} → Step held (ran_hooks setup true) (test_hooks ∷ held) []
  fail_setup :
      {held : List Resource} → Step held (ran_hooks setup false) held (of_failed_hooks setup ∷ [])
  tear_down :
      {held : List Resource} (ok : Bool) → Step (test_hooks ∷ held) (ran_hooks teardown ok) held []
  run_before_all :
      {held : List Resource} → Step held (ran_hooks before_all true) (suite_hooks ∷ held) []
  fail_before_all :
      {held : List Resource}
      → Step held (ran_hooks before_all false) held (of_failed_hooks before_all ∷ [])
  run_after_all :
      {held : List Resource} (ok : Bool)
      → Step (suite_hooks ∷ held) (ran_hooks after_all ok) held []
  render : {held : List Resource} → Step (test_hooks ∷ held) chart_rendered (test_hooks ∷ held) []
  install_chart :
      {held : List Resource} (ok : Bool)
      → Step (test_hooks ∷ held) (chart_installed ok) (test_hooks ∷ held) (of_chart ok ∷ [])

-- The events one after the other, and the remainders of all of them in their order.
pub data Steps : List Resource → List Event → List Resource → List Remainder → Type 0 where
  no_step : {held : List Resource} → Steps held [] held []
  further :
      {held more last : List Resource} {e : Event} {events : List Event}
      {left later : List Remainder}
      → Step held e more left
      → Steps more events last later
      → Steps held (e ∷ events) last (left ++ later)

abbrev pub Trace : List Resource → List Event → List Resource → Type 0
Trace held events last = (left : List Remainder) × Steps held events last left

pub stop : {held : List Resource} → Trace held [] held
stop = ([], no_step)

pub then_step :
    {held more last : List Resource} {e : Event} {events : List Event} {left : List Remainder}
    → Step held e more left
    → Trace more events last
    → Trace held (e ∷ events) last
then_step {left = left} s (later, steps) = (left ++ later, further s steps)

Steps-append :
    {held more last : List Resource} {left : List Remainder} (xs ys : List Event)
    → Steps held xs more left
    → Trace more ys last
    → Trace held (xs ++ ys) last
Steps-append [] ys no_step t = t
Steps-append (x ∷ xs) ys (further s rest) t = then_step s (Steps-append xs ys rest t)

pub Trace-append :
    {held more last : List Resource} (xs ys : List Event)
    → Trace held xs more
    → Trace more ys last
    → Trace held (xs ++ ys) last
Trace-append xs ys (left, steps) t = Steps-append xs ys steps t

pub one_step :
    {held more : List Resource} {e : Event} {left : List Remainder}
    → Step held e more left
    → Trace held (e ∷ []) more
one_step s = then_step s stop
