-- ===== src/Runner/Parallel/Files.antt =====
-- internal/runner: one file with one test, which is skipped, run from its suite to the results.
use vigie.Prelude.{refl, false, none, some, String, List, [], ◌∷◌, arith}
use vigie.Value.{str}
use vigie.Dsl.Assertion
use vigie.Dsl.Capability.{tier_provides}
use vigie.Deps.Engine.{install}
use vigie.Matchers.Registry.{find}
use vigie.Dsl.Suite.{Test, Suite}
use vigie.Dsl.Ceiling.Samples.{suite_of, test_of, exists_name}
use vigie.Runner.Apply.{TestResult, ExpandedTest}
use vigie.Runner.OneFile.{FileEnd, results, run_file, loaded}
use vigie.Runner.Expand.{expand_tests}
use vigie.Runner.Expand.Listed.{Pairs}
use vigie.Runner.Expand.Samples.{plain}
use vigie.Runner.Samples.{world}
use vigie.Runner.Parallel.{
  FileAnswer, Fanout, waiting, finished, ran, written, running, act, acquire, begin, end, release,
  Reach, here, next, start_all, returned, answer_of, triggers,
}
use vigie.Runner.Parallel.Whole.{Files, RunsTo, whole, IsComplete, returned-IsComplete}

abbrev skipped_test : Test
skipped_test = record (test_of (Assertion.cons exists_name Assertion.nil)) { skip = str "later" }

abbrev suite : Suite
suite = record (suite_of "e2e" Assertion.nil) { tests = skipped_test ∷ [] }

abbrev files : Files
files = record {
  templating = plain;
  read = λ path. ("", some suite);
  base_dir = λ path. "tests";
  error_text = λ e. "";
}

abbrev test : ExpandedTest
test = record { test = skipped_test; display_name = "starts" }

abbrev tests_of : FileEnd → List (String × TestResult)
tests_of (results rs) = rs
tests_of _ = []

abbrev answer : FileAnswer
answer = record {
  suite = record {
    file = "a";
    tests = tests_of (run_file world false "e2e" none (loaded suite (test ∷ [])) "tests").1;
  };
  error = none;
}

runs : RunsTo world "e2e" none files "a" answer
unfolding run_file expand_tests answer_of install find tier_provides
runs = record { file = loaded suite (test ∷ []); file_read = refl; file_ran = refl }

abbrev over : Fanout
over = record { tasks = finished "a" (ran answer) ∷ []; tokens = 0; cancelled = false }

whole_run : Reach (whole world "e2e" none files 1) (start_all ("a" ∷ [])) over
unfolding triggers
whole_run =
    next
      (next
        (next (next here (act [] [] (waiting "a") _ _ _ refl (acquire (omega arith)) refl))
          (act [] [] _ _ _ _ refl (begin refl) refl))
        (act [] [] (running "a") (written "a" (ran answer)) 1 false refl (end runs refl) refl))
      (act [] [] _ _ _ _ refl (release refl) refl)

returned-IsComplete_example : Pairs (IsComplete world "e2e" none files) ("a" ∷ []) (returned over).0
unfolding returned
returned-IsComplete_example =
    returned-IsComplete world "e2e" none files 1 ("a" ∷ []) over whole_run (tt, tt) refl
