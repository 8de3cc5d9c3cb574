-- ===== src/Runner/Parallel.antt =====
-- internal/runner/parallel.go, with the work that internal/runner/runner.go and apply.go hand to it: the files
-- of a run, one goroutine for each, of which a semaphore lets `capacity` run at a time. A step is what one
-- goroutine does between two points where the others can see it. A panic of a file ends the program and is
-- left out.
pub mod Counted
pub mod Invariant
pub mod Ended
pub mod Outcome
pub mod Cancelled
pub mod Whole
pub mod Samples
pub mod Files
use vigie.Prelude.{
  String, ℕ, zero, suc, ◌<◌, ◌≡◌, Bool, true, false, not, ◌&&◌, ◌||◌, Option, none, some, List, [],
  ◌∷◌, ◌++◌, map,
}
use vigie.Prelude.Int.{ℤ, pos, negsuc}
use vigie.Runner.Apply.{TestResult}
use vigie.Runner.OneFile.{FileEnd, FileError, results, error, crashed}

-- A suite without its name and its duration.
pub record SuiteResult : Type 0 where
  pub file : String
  pub tests : List (String × TestResult)

pub record FileAnswer : Type 0 where
  pub suite : SuiteResult
  pub error : Option FileError

-- SuiteHasFailure
unfoldable pub suite_has_failure : List (String × TestResult) → Bool
suite_has_failure [] = false
suite_has_failure ((name, r) ∷ rest) = (not r.pass && not r.skipped) || suite_has_failure rest

unfoldable pub any_failed : List SuiteResult → Bool
unfolding suite_has_failure
any_failed [] = false
any_failed (sr ∷ rest) = suite_has_failure sr.tests || any_failed rest

-- What runFile of the apply runner returns: with an error, the result of the file without tests.
unfoldable pub answer_of : (path : String) → FileEnd → Option FileAnswer
answer_of path (results tests) =
    some (record { suite = record { file = path; tests = tests }; error = none })
answer_of path (error e) =
    some (record { suite = record { file = path; tests = [] }; error = some e })
answer_of path crashed = none

-- runParallel's own default, and that of the apply runner, which comes before it.
unfoldable pub capacity_of : (parallelism : ℤ) → ℕ
capacity_of (pos zero) = 1
capacity_of (pos (suc n)) = suc n
capacity_of (negsuc n) = 1

unfoldable pub apply_parallelism : (cpus : ℕ) → (parallelism : ℤ) → ℤ
apply_parallelism cpus (pos zero) = pos cpus
apply_parallelism cpus (pos (suc n)) = pos (suc n)
apply_parallelism cpus (negsuc n) = pos cpus

-- What stands in results[idx] and errs[idx].
pub data Slot : Type 0 where
  passed_over : Slot
  ran : FileAnswer → Slot

-- A goroutine: it waits for the semaphore, holds it, runs its file, has written its slot, has given the
-- semaphore back.
pub data Task : Type 0 where
  waiting : (path : String) → Task
  holding : (path : String) → Task
  running : (path : String) → Task
  written : (path : String) → Slot → Task
  finished : (path : String) → Slot → Task

-- `tokens` are in the channel of the semaphore; `cancelled` is what runCtx.Done() tells.
pub record Fanout : Type 0 where
  pub tasks : List Task
  pub tokens : ℕ
  pub cancelled : Bool

-- A run: the semaphore's size, --fail-fast, whether the context of the caller may be cancelled (it may in the
-- apply runner only), and what a file may answer.
pub record Setting : Type 1 where
  pub capacity : ℕ
  pub fail_fast : Bool
  pub interruptible : Bool
  pub Answers : (path : String) → FileAnswer → Type 0

-- fileErr == nil
abbrev pub succeeded : Option FileError → Bool
succeeded none = true
succeeded (some e) = false

-- The condition of cancelRun.
unfoldable pub triggers : (fail_fast : Bool) → FileAnswer → Bool
unfolding suite_has_failure
triggers fail_fast a = fail_fast && (succeeded a.error && suite_has_failure a.suite.tests)

abbrev pub start_all : List String → Fanout
start_all items = record { tasks = map waiting items; tokens = 0; cancelled = false }

module _ (c : Setting) where
  -- What one goroutine does to its task, the semaphore and the context.
  pub data Act (tokens : ℕ) (cancelled : Bool) : Task → Task → ℕ → Bool → Type 0 where
    acquire :
        {path : String}
        → tokens < c.capacity
        → Act tokens cancelled (waiting path) (holding path) (suc tokens) cancelled
    pass_over :
        {path : String}
        → cancelled ≡ true
        → Act tokens cancelled (holding path) (written path passed_over) tokens cancelled
    begin :
        {path : String}
        → cancelled ≡ false
        → Act tokens cancelled (holding path) (running path) tokens cancelled
    end :
        {path : String} {answer : FileAnswer} {cancels : Bool}
        → c.Answers path answer
        → cancels ≡ (triggers c.fail_fast answer || cancelled)
        → Act tokens cancelled (running path) (written path (ran answer)) tokens cancels
    release :
        {path : String} {slot : Slot} {left : ℕ}
        → tokens ≡ suc left
        → Act tokens cancelled (written path slot) (finished path slot) left cancelled

  pub data Step (s t : Fanout) : Type 0 where
    act :
        (before after : List Task) (x y : Task) (tokens : ℕ) (cancelled : Bool)
        → s.tasks ≡ before ++ x ∷ after
        → Act s.tokens s.cancelled x y tokens cancelled
        → t ≡ record { tasks = before ++ y ∷ after; tokens = tokens; cancelled = cancelled }
        → Step s t
    interrupt :
        c.interruptible ≡ true
        → s.cancelled ≡ false
        → t ≡ record { tasks = s.tasks; tokens = s.tokens; cancelled = true }
        → Step s t

  pub data Reach (s : Fanout) : Fanout → Type 0 where
    here : Reach s s
    next : {t u : Fanout} → Reach s t → Step t u → Reach s u

-- The slots once all goroutines are done: what runParallel returns.
abbrev pub result_of : Task → SuiteResult
result_of (written path (ran a)) = a.suite
result_of (finished path (ran a)) = a.suite
result_of (written path passed_over) = record { file = path; tests = [] }
result_of (finished path passed_over) = record { file = path; tests = [] }
result_of _ = record { file = ""; tests = [] }

abbrev pub error_of : Task → Option FileError
error_of (written path (ran a)) = a.error
error_of (finished path (ran a)) = a.error
error_of _ = none

unfoldable pub first_file_error : List Task → Option FileError
first_file_error [] = none
first_file_error (t ∷ ts) = elim (error_of t) [ some e ↦ some e | none ↦ first_file_error ts ]

unfoldable pub returned : Fanout → List SuiteResult × Option FileError
unfolding first_file_error
returned s = (map result_of s.tasks, first_file_error s.tasks)
