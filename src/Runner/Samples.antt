-- ===== src/Runner/Samples.antt =====
-- internal/runner: a suite with a dep and hooks, of which one test runs on a cluster.
use vigie.Prelude.{◌≡◌, ◌↔◌, refl, false, none, some, [], ◌∷◌}
use vigie.Dsl.Assertion.{nil, cons}
use vigie.Dsl.Suite.{Test, Suite}
use vigie.Dsl.Ceiling.Samples.{test_of, suite_of}
use vigie.Deps.Dag.Samples.{in_order}
use vigie.Deps.Engine.Samples.{served, no_files, healthy}
use vigie.Runner.Documents.Samples.{docs, printer, check}
use vigie.Runner.Evaluate.{Evaluate, passes, fails, failures, evaluate_assertions}
use vigie.Runner.Evaluate.Verdict.{Passes, evaluate_assertions-Passes}
use vigie.Runner.Apply.{World, created, ExpandedTest}
use vigie.Runner.Protocol.{Trace}
use vigie.Runner.OneFile.{loaded, run_file}
use vigie.Runner.OneFile.Released.{run_file-Trace}
use vigie.Runner.Namespace.{codes, allocate_namespace}
use vigie.Runner.Namespace.Labels.{IsDnsLabel, allocate_namespace-IsDnsLabel}

abbrev always : Evaluate
always a doc idx = passes

abbrev never : Evaluate
never a doc idx = fails "no"

abbrev test : Test
test = test_of (cons check nil)

evaluate_assertions-Passes_example :
    (evaluate_assertions printer always test docs ≡ failures []) ↔ Passes printer always test docs
evaluate_assertions-Passes_example = evaluate_assertions-Passes printer always test docs

abbrev pub world : World
world = record {
  deps = healthy;
  range = in_order;
  load = no_files;
  shell = record { parse_duration = λ text. ("invalid", none); run = λ command. none };
  printer = printer;
  kubeconfig = "";
  allocate_namespace = λ display_name. "vg-starts-00000000";
  create_namespace = λ namespace. created;
  call_helper = λ t. none;
  evaluate_helper = always;
  merge_exports = λ suite exports. exports;
  render = λ t namespace exports. (docs, none);
  helm_install = λ t namespace exports. some "refused";
  evaluate = λ namespace render_error install_error. never;
}

abbrev expanded : ExpandedTest
expanded = record { test = test; display_name = "starts" }

abbrev suite : Suite
suite = record (suite_of "e2e" (cons check nil)) { dependencies = served "db" [] ∷ [] }

run_file-Trace_example :
    Trace [] (run_file world false "e2e" none (loaded suite (expanded ∷ [])) "tests").0 []
run_file-Trace_example = run_file-Trace world "e2e" none (loaded suite (expanded ∷ [])) "tests"

allocate-spaces :
    allocate_namespace "  Starts [kind=A_]" (some (1, 171, 0, 255))
    ≡ codes "vg-starts-kinda-01ab00ff"
unfolding allocate_namespace
allocate-spaces = refl

allocate_namespace-IsDnsLabel_example :
    IsDnsLabel (allocate_namespace "  Starts [kind=A_]" (some (1, 171, 0, 255)))
allocate_namespace-IsDnsLabel_example =
    allocate_namespace-IsDnsLabel "  Starts [kind=A_]" (some (1, 171, 0, 255))
