-- ===== src/Runner/Parallel/Samples.antt =====
-- internal/runner/parallel.go: two files, one at a time, with --fail-fast; the first one has a failing test.
use vigie.Prelude.{
  ℕ, ◌≤◌, ◌≡◌, ◌⊎◌, refl, true, false, Option, none, String, List, [], ◌∷◌, arith, All, map,
}
use vigie.Runner.Apply.{TestResult, not_skipped}
use vigie.Runner.OneFile.{FileError}
use vigie.Runner.Parallel.{
  FileAnswer, passed_over, ran, Task, waiting, holding, running, written, finished, Fanout, Setting,
  act, acquire, pass_over, begin, end, release, Step, Reach, here, next, start_all, returned,
  triggers,
}
use vigie.Runner.Parallel.Counted.{total, path_of, running_now}
use vigie.Runner.Parallel.Ended.{IsFinished, steps-le, steps, Reach-IsFinished}
use vigie.Runner.Expand.Listed.{Pairs}
use vigie.Runner.Parallel.Cancelled.{BeginsNone, EndsAs, Reach-EndsAs}
use vigie.Runner.Parallel.Outcome.{
  ReportsAll, first_some, Failed, returned-ReportsAll, running-le, passed-Failed,
}

abbrev broken : TestResult
broken = record {
  pass = false;
  skipped = false;
  skip_reason = not_skipped;
  failures = [];
  live_asserts = 0;
  rendered_asserts = 0;
}

abbrev answer : String → FileAnswer
answer path = record {
  suite = record { file = path; tests = ("starts", broken) ∷ [] };
  error = none;
}

abbrev setting : Setting
setting = record {
  capacity = 1;
  fail_fast = true;
  interruptible = false;
  Answers = λ path a. a ≡ answer path;
}

abbrev files : List String
files = "a" ∷ "b" ∷ []

abbrev at : List Task → ℕ → Fanout
at tasks tokens = record { tasks = tasks; tokens = tokens; cancelled = false }

abbrev cancelled_at : List Task → ℕ → Fanout
cancelled_at tasks tokens = record { tasks = tasks; tokens = tokens; cancelled = true }

abbrev after_first : Fanout
after_first = cancelled_at (written "a" (ran (answer "a")) ∷ waiting "b" ∷ []) 1

abbrev over : Fanout
over = cancelled_at (finished "a" (ran (answer "a")) ∷ finished "b" passed_over ∷ []) 0

-- The first file runs and cancels the run.
abbrev first_run : Reach setting (start_all files) after_first
unfolding triggers
first_run =
    next
      (next (next here (act [] (waiting "b" ∷ []) _ _ _ _ refl (acquire (omega arith)) refl))
        (act [] (waiting "b" ∷ []) _ _ _ _ refl (begin refl) refl))
      (act [] (waiting "b" ∷ []) (running "a") (written "a" (ran (answer "a"))) 1 true refl
        (end refl refl) refl)

-- The second one is left out.
abbrev done_a : Task
done_a = finished "a" (ran (answer "a"))

abbrev release_a : Step setting after_first (cancelled_at (done_a ∷ waiting "b" ∷ []) 0)
release_a = act [] (waiting "b" ∷ []) _ _ _ _ refl (release refl) refl

abbrev acquire_b :
    Step setting
      (cancelled_at (done_a ∷ waiting "b" ∷ []) 0)
      (cancelled_at (done_a ∷ holding "b" ∷ []) 1)
acquire_b = act (done_a ∷ []) [] _ _ _ _ refl (acquire (omega arith)) refl

abbrev pass_b :
    Step setting
      (cancelled_at (done_a ∷ holding "b" ∷ []) 1)
      (cancelled_at (done_a ∷ written "b" passed_over ∷ []) 1)
pass_b = act (done_a ∷ []) [] _ _ _ _ refl (pass_over refl) refl

abbrev release_b : Step setting (cancelled_at (done_a ∷ written "b" passed_over ∷ []) 1) over
release_b = act (done_a ∷ []) [] _ _ _ _ refl (release refl) refl

whole_run : Reach setting (start_all files) over
whole_run = next (next (next (next first_run release_a) acquire_b) pass_b) release_b

steps-le_example : steps setting whole_run ≤ 9
steps-le_example = steps-le setting files over whole_run

Reach-IsFinished_example :
    (All IsFinished after_first.tasks ⊎ ((t : Fanout) × Step setting after_first t))
    × ((t : Fanout) × Reach setting after_first t × All IsFinished t.tasks)
Reach-IsFinished_example =
    Reach-IsFinished setting (omega arith) (λ path. (answer path, refl)) files after_first first_run

returned-ReportsAll_example :
    (errors : List (Option FileError)) × ReportsAll setting files (returned over).0 errors
    × ((returned over).1 ≡ first_some errors)
returned-ReportsAll_example = returned-ReportsAll setting files over whole_run (tt, (tt, tt))

running-le_example : total running_now after_first.tasks ≤ 1
running-le_example = running-le setting files after_first first_run

-- The first file has its answer, and the second one is left out.
Reach-EndsAs_example :
    ((t : Fanout)
      → Reach setting after_first t
      → BeginsNone setting after_first t
        × (All IsFinished t.tasks → Pairs (EndsAs setting) after_first.tasks t.tasks))
    × ((t : Fanout) × Reach setting after_first t × All IsFinished t.tasks)
Reach-EndsAs_example =
    Reach-EndsAs setting (omega arith) (λ path. (answer path, refl)) files after_first first_run
      refl

passed-Failed_example : Failed setting over.tasks × (map path_of over.tasks ≡ files)
passed-Failed_example = passed-Failed setting files over refl whole_run (omega arith)
