-- ===== src/Runner/Parallel/Outcome.antt =====
-- internal/runner/parallel.go, runner.go and apply.go: the results of a run of the files, and fail-fast.
use vigie.Prelude.{
  ℕ, zero, suc, ◌+◌, ◌≤◌, ◌<◌, ◌≡◌, ◌⊎◌, inl, inr, refl, ap, ◌++◌, true, false, Bool-cases,
  Option-cases, Option, none, some, List, [], ◌∷◌, map, arith, String, All, &&-true,
}
use vigie.Runner.OneFile.{FileError}
use vigie.Runner.Parallel.{
  Task, waiting, holding, running, written, finished, Slot, passed_over, ran, Setting, Fanout,
  FileAnswer, SuiteResult, Reach, start_all, triggers, succeeded, suite_has_failure, result_of,
  error_of, first_file_error, returned,
}
use vigie.Runner.Parallel.Counted.{
  total, running_now, running_now-le-holds, passed, trigger, trigger_slot, path_of, IsSound, Holds,
}
use vigie.Runner.Parallel.Invariant.{start_all-Inv, Reach-Inv}
use vigie.Runner.Parallel.Ended.{IsFinished}

-- What a file has in the results: its own answer, or the empty result of a file that was left out.
pub data Reports (c : Setting) (path : String) (r : SuiteResult) (e : Option FileError)
    : Type 0 where
  answered : (a : FileAnswer) → c.Answers path a → r ≡ a.suite → e ≡ a.error → Reports c path r e
  left_out : r ≡ record { file = path; tests = [] } → e ≡ none → Reports c path r e

-- The results stand in the order of the files, with an error for each.
abbrev pub ReportsAll :
    (c : Setting) → List String → List SuiteResult → List (Option FileError) → Type 0
ReportsAll c [] [] [] = Unit
ReportsAll c (p ∷ ps) (r ∷ rs) (e ∷ es) = Reports c p r e × ReportsAll c ps rs es
ReportsAll c _ _ _ = ⊥

-- The first error of a list.
abbrev pub first_some : List (Option FileError) → Option FileError
first_some [] = none
first_some (none ∷ es) = first_some es
first_some (some e ∷ es) = some e

first_file_error-first_some : (ts : List Task) → first_file_error ts ≡ first_some (map error_of ts)
unfolding first_file_error
first_file_error-first_some [] = refl
first_file_error-first_some (t ∷ ts) = elim (Option-cases (error_of t)) [
  | inl clean ↦ rw (clean, first_file_error) (first_file_error-first_some ts)
  | inr (e, failed) ↦ rw (failed, first_file_error) refl
]

pub pos_or : (n : ℕ) → (0 < n) ⊎ (n ≡ 0)
pos_or zero = inr refl
pos_or (suc n) = inl (omega arith)

module _ (c : Setting) where
  slot-Reports :
      (path : String) (slot : Slot)
      → Holds c path slot
      → Reports c path (result_of (finished path slot)) (error_of (finished path slot))
  slot-Reports path passed_over h = left_out refl refl
  slot-Reports path (ran a) h = answered a h refl refl

  finished-ReportsAll :
      (ts : List Task)
      → All IsFinished ts
      → All (IsSound c) ts
      → ReportsAll c (map path_of ts) (map result_of ts) (map error_of ts)
  finished-ReportsAll [] f h = tt
  finished-ReportsAll (finished path slot ∷ ts) f h =
      (slot-Reports path slot h.0, finished-ReportsAll ts f.1 h.1)
  finished-ReportsAll (waiting path ∷ ts) f h = absurd f.0
  finished-ReportsAll (holding path ∷ ts) f h = absurd f.0
  finished-ReportsAll (running path ∷ ts) f h = absurd f.0
  finished-ReportsAll (written path slot ∷ ts) f h = absurd f.0

  -- Once all goroutines are done, the results are in the order of the files, one for each: an answer of that
  -- file, or the empty result of a file that was left out, which has no error. The error of the run is the first
  -- one in that order.
  pub returned-ReportsAll :
      (items : List String) (s : Fanout)
      → Reach c (start_all items) s
      → All IsFinished s.tasks
      → (errors : List (Option FileError)) × ReportsAll c items (returned s).0 errors
        × ((returned s).1 ≡ first_some errors)
  unfolding returned
  returned-ReportsAll items s r f =
      let i = Reach-Inv c items r (start_all-Inv c items) in
      (
        map error_of s.tasks,
        rw (← i.in_order) (finished-ReportsAll s.tasks f i.sound),
        first_file_error-first_some s.tasks,
      )

  -- At no moment of a run do more files run than the semaphore has room for.
  pub running-le :
      (items : List String) (s : Fanout)
      → Reach c (start_all items) s
      → total running_now s.tasks ≤ c.capacity
  running-le items s r =
      let i = Reach-Inv c items r (start_all-Inv c items) in
      omega (arith, running_now-le-holds s.tasks, i.counted, i.capped)

  -- One of the goroutines has ended its file without an error, and the answer has a failing test that is not
  -- skipped, in a run with --fail-fast.
  pub record Failed (ts : List Task) : Type 0 where
    pub fail_fast_set : c.fail_fast ≡ true
    pub path : String
    pub answer : FileAnswer
    pub before : List Task
    pub task : Task
    pub after : List Task
    pub parts : ts ≡ before ++ task ∷ after
    pub has_ended : (task ≡ written path (ran answer)) ⊎ (task ≡ finished path (ran answer))
    pub possible : c.Answers path answer
    pub no_error : succeeded answer.error ≡ true
    pub has_failure : suite_has_failure answer.suite.tests ≡ true

  slot-Failed :
      (path : String) (slot : Slot) (t : Task) (ts : List Task)
      → (t ≡ written path slot) ⊎ (t ≡ finished path slot)
      → Holds c path slot
      → 0 < trigger_slot c.fail_fast slot
      → Failed (t ∷ ts)
  unfolding triggers
  slot-Failed path passed_over t ts ended h n = absurd (omega (arith, n))
  slot-Failed path (ran a) t ts ended h n = elim (Bool-cases (triggers c.fail_fast a)) [
    | inl hit ↦
        let (set, rest) = &&-true c.fail_fast _ hit in
        let (clean, failing) = &&-true (succeeded a.error) _ rest in
        record {
          fail_fast_set = set;
          path = path;
          answer = a;
          before = [];
          task = t;
          after = ts;
          parts = refl;
          has_ended = ended;
          possible = h;
          no_error = clean;
          has_failure = failing;
        }
    | inr miss ↦ absurd (ground arith)
  ]

  further_on : (t : Task) (ts : List Task) → Failed ts → Failed (t ∷ ts)
  further_on t ts f = record {
    fail_fast_set = f.fail_fast_set;
    path = f.path;
    answer = f.answer;
    before = t ∷ f.before;
    task = f.task;
    after = f.after;
    parts = ap (λ l. t ∷ l) f.parts;
    has_ended = f.has_ended;
    possible = f.possible;
    no_error = f.no_error;
    has_failure = f.has_failure;
  }

  slot_or :
      (path : String) (slot : Slot) (t : Task) (ts : List Task)
      → (t ≡ written path slot) ⊎ (t ≡ finished path slot)
      → Holds c path slot
      → (0 < total (trigger c.fail_fast) ts → Failed ts)
      → 0 < trigger_slot c.fail_fast slot + total (trigger c.fail_fast) ts
      → Failed (t ∷ ts)
  slot_or path slot t ts ended h rest n = elim (pos_or (trigger_slot c.fail_fast slot)) [
    | inl hit ↦ slot-Failed path slot t ts ended h hit
    | inr none_here ↦ further_on t ts (rest (omega (arith, n, none_here)))
  ]

  find-Failed :
      (ts : List Task) → All (IsSound c) ts → 0 < total (trigger c.fail_fast) ts → Failed ts
  find-Failed [] h n = absurd (omega (arith, n))
  find-Failed (waiting path ∷ ts) h n = further_on _ ts (find-Failed ts h.1 (omega (arith, n)))
  find-Failed (holding path ∷ ts) h n = further_on _ ts (find-Failed ts h.1 (omega (arith, n)))
  find-Failed (running path ∷ ts) h n = further_on _ ts (find-Failed ts h.1 (omega (arith, n)))
  find-Failed (written path slot ∷ ts) h n =
      slot_or path slot _ ts (inl refl) h.0 (find-Failed ts h.1) n
  find-Failed (finished path slot ∷ ts) h n =
      slot_or path slot _ ts (inr refl) h.0 (find-Failed ts h.1) n

  -- Where the caller does not cancel the run, a file is left out only with --fail-fast, and only if the file
  -- of another goroutine of the run has ended without an error, with a failing test that is not skipped. The
  -- goroutines stand for the files in their order.
  pub passed-Failed :
      (items : List String) (s : Fanout)
      → c.interruptible ≡ false
      → Reach c (start_all items) s
      → 0 < total passed s.tasks
      → Failed s.tasks × (map path_of s.tasks ≡ items)
  passed-Failed items s undisturbed r some_passed =
      let i = Reach-Inv c items r (start_all-Inv c items) in
      elim (i.caused (i.excused some_passed)) [
        | inl outside ↦ cc
        | inr failing ↦ (find-Failed s.tasks i.sound failing, i.in_order)
      ]
