-- ===== src/Runner/Parallel/Whole.antt =====
-- internal/runner: the run of all files, from the tests of each suite to the results. The files are read,
-- expanded, run by runFile, and handed out to the goroutines.
use vigie.Prelude.{
  ℕ, ◌≡◌, inl, inr, refl, sym, ap, ◌∙◌, Bool, false, Option, Option-cases, none, some, List, [],
  ◌∷◌, map, arith, String, All,
}
use vigie.Dsl.Suite.{Suite}
use vigie.Runner.Apply.{World, ExpandedTest}
use vigie.Runner.Expand
use vigie.Runner.Expand.{Templating, Expansion, expand_tests}
use vigie.Runner.Expand.Listed.{Pairs}
use vigie.Runner.OneFile.{FileEnd, Loaded, loaded, not_loaded, results, error, crashed, run_file}
use vigie.Runner.OneFile.Released.{ReportsOn, first, matched_names, run_file-ReportsOn}
use vigie.Runner.Parallel.{
  FileAnswer, SuiteResult, Setting, Fanout, Task, waiting, holding, running, written, finished,
  passed_over, ran, Reach, start_all, answer_of, returned, result_of, first_file_error,
}
use vigie.Runner.Parallel.Counted.{total, passed, path_of, IsSound}
use vigie.Runner.Parallel.Invariant.{start_all-Inv, Reach-Inv}
use vigie.Runner.Parallel.Ended.{IsFinished}
use vigie.Runner.Parallel.Outcome.{passed-Failed, pos_or}

-- The tests as the apply runner takes them.
abbrev pub plain_test : Expansion → ExpandedTest
plain_test x = record { test = x.test; display_name = x.display_name }

-- What runFile makes of the expansion of a suite that it has read.
abbrev pub with_expanded :
    (text : Expand.ExpandError → String) → Suite → Expand.Outcome (List Expansion) → Option Loaded
with_expanded text suite (Expand.ok xs) = some (loaded suite (map plain_test xs))
with_expanded text suite (Expand.err e) = some (not_loaded (text e))
with_expanded text suite Expand.panicked = none

abbrev value_or {ℓ} : {A : Type ℓ} → A → Option A → A
value_or a none = a
value_or a (some b) = b

some_path {ℓ} : {A : Type ℓ} {a b : A} → some a ≡ some b → a ≡ b
some_path {a = a} h = ap (value_or a) h

-- The files, and what a run knows of each: its suite or an error, and its directory.
pub record Files : Type 0 where
  pub templating : Templating
  pub read : (path : String) → String × Option Suite
  pub base_dir : (path : String) → String
  pub error_text : Expand.ExpandError → String

abbrev pub of_read : Files → String × Option Suite → Option Loaded
of_read f (text, none) = some (not_loaded text)
of_read f (text, some suite) =
    with_expanded f.error_text suite (expand_tests f.templating suite.tests)

module _ (w : World) (tier : String) (matching : Option (String → Bool)) (f : Files) where
  -- An answer of a file is one of runFile.
  pub record RunsTo (path : String) (a : FileAnswer) : Type 0 where
    pub file : Loaded
    pub file_read : of_read f (f.read path) ≡ some file
    pub file_ran : answer_of path (run_file w false tier matching file (f.base_dir path)).1 ≡ some a

  abbrev pub whole : (capacity : ℕ) → Setting
  whole capacity = record {
    capacity = capacity;
    fail_fast = false;
    interruptible = false;
    Answers = RunsTo;
  }

  -- A file whose suite is read and expanded has one result for each test that --match leaves.
  abbrev pub IsComplete : String → SuiteResult → Type 0
  IsComplete path r =
      (text : String) (suite : Suite) (xs : List Expansion)
      → f.read path ≡ (text, some suite)
      → expand_tests f.templating suite.tests ≡ Expand.ok xs
      → map first r.tests ≡ matched_names matching (map plain_test xs)

  names_of_end :
      (path : String) (names : List String) (e : FileEnd) (a : FileAnswer)
      → ReportsOn names e
      → answer_of path e ≡ some a
      → a.error ≡ none
      → map first a.suite.tests ≡ names
  unfolding answer_of
  names_of_end path names (results rs) a h e clean =
      ap (λ b. map first b.suite.tests) (sym (some_path e)) ∙ h
  names_of_end path names (error x) a h e clean =
      let bad = ap (λ b. b.error) (some_path e) ∙ clean in cc
  names_of_end path names crashed a h e clean = cc

  RunsTo-IsComplete :
      (path : String) (a : FileAnswer) → RunsTo path a → a.error ≡ none → IsComplete path a.suite
  RunsTo-IsComplete path a r clean text suite xs read expanded =
      let same : some (loaded suite (map plain_test xs)) ≡ some r.file =
        rw (read, expanded) at r.file_read in
      names_of_end path _ _ a
        (run_file-ReportsOn w tier matching suite (map plain_test xs) (f.base_dir path))
        (rw (some_path same) r.file_ran) clean

  tasks-IsComplete :
      (capacity : ℕ) (ts : List Task)
      → All IsFinished ts
      → All (IsSound (whole capacity)) ts
      → total passed ts ≡ 0
      → first_file_error ts ≡ none
      → Pairs IsComplete (map path_of ts) (map result_of ts)
  unfolding first_file_error
  tasks-IsComplete capacity [] fs ss ps es = tt
  tasks-IsComplete capacity (finished path passed_over ∷ ts) fs ss ps es =
      absurd (omega (arith, ps))
  tasks-IsComplete capacity (finished path (ran a) ∷ ts) fs ss ps es = elim (Option-cases a.error) [
    | inl clean ↦ (
      RunsTo-IsComplete path a ss.0 clean,
      tasks-IsComplete capacity ts fs.1 ss.1 (omega (arith, ps))
          (rw (clean, first_file_error) at es),
    )
    | inr (x, failed) ↦ let bad : some x ≡ none = rw (failed, first_file_error) at es in cc
  ]
  tasks-IsComplete capacity (waiting path ∷ ts) fs ss ps es = absurd fs.0
  tasks-IsComplete capacity (holding path ∷ ts) fs ss ps es = absurd fs.0
  tasks-IsComplete capacity (running path ∷ ts) fs ss ps es = absurd fs.0
  tasks-IsComplete capacity (written path slot ∷ ts) fs ss ps es = absurd fs.0

  none_passed :
      (capacity : ℕ) (items : List String) (s : Fanout)
      → Reach (whole capacity) (start_all items) s
      → total passed s.tasks ≡ 0
  none_passed capacity items s r = elim (pos_or (total passed s.tasks)) [
    | inl some_passed ↦
        let failed = passed-Failed (whole capacity) items s refl r some_passed in
        let bad = failed.0.fail_fast_set in cc
    | inr none_passed_over ↦ none_passed_over
  ]

  -- Without --fail-fast and without --keep-cluster, where the caller does not cancel the run and the run returns
  -- no error: there is a result for each file, in the order of the files, and the result of a file whose suite is
  -- expanded has one entry for each of its tests that --match leaves, in their order.
  pub returned-IsComplete :
      (capacity : ℕ) (items : List String) (s : Fanout)
      → Reach (whole capacity) (start_all items) s
      → All IsFinished s.tasks
      → (returned s).1 ≡ none
      → Pairs IsComplete items (returned s).0
  unfolding returned
  returned-IsComplete capacity items s r done clean =
      let i = Reach-Inv (whole capacity) items r (start_all-Inv (whole capacity) items) in
      rw (← i.in_order)
        (tasks-IsComplete capacity s.tasks done i.sound (none_passed capacity items s r) clean)
