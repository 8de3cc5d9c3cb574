-- ===== src/Runner/Parallel/Counted.antt =====
-- internal/runner/parallel.go: how many goroutines stand where.
use vigie.Prelude.{
  ℕ, ◌+◌, ◌≤◌, ◌<◌, ◌≡◌, ◌⊎◌, inl, inr, refl, Bool, true, List, [], ◌∷◌, ◌++◌, arith, if◌then◌else◌,
  Bool-cases, String,
}
use vigie.Runner.Parallel.{
  Task, waiting, holding, running, written, finished, Slot, passed_over, ran, Setting, Act, acquire,
  pass_over, begin, end, release, triggers,
}

-- The sum of a measure of the tasks.
abbrev pub total : (Task → ℕ) → List Task → ℕ
total f [] = 0
total f (t ∷ ts) = f t + total f ts

pub total-append : (f : Task → ℕ) (xs ys : List Task) → total f (xs ++ ys) ≡ total f xs + total f ys
total-append f [] ys = omega arith
total-append f (x ∷ xs) ys = omega (arith, total-append f xs ys)

-- The semaphore is held, the file runs, the steps that are left, the file is run or was run, the file was left out, the file
-- had a failure.
abbrev pub holds : Task → ℕ
holds (holding path) = 1
holds (running path) = 1
holds (written path slot) = 1
holds _ = 0

abbrev pub running_now : Task → ℕ
running_now (running path) = 1
running_now _ = 0

abbrev pub left : Task → ℕ
left (waiting path) = 4
left (holding path) = 3
left (running path) = 2
left (written path slot) = 1
left (finished path slot) = 0

pub running_now-le-holds : (ts : List Task) → total running_now ts ≤ total holds ts
running_now-le-holds [] = omega arith
running_now-le-holds (waiting path ∷ ts) = omega (arith, running_now-le-holds ts)
running_now-le-holds (holding path ∷ ts) = omega (arith, running_now-le-holds ts)
running_now-le-holds (running path ∷ ts) = omega (arith, running_now-le-holds ts)
running_now-le-holds (written path slot ∷ ts) = omega (arith, running_now-le-holds ts)
running_now-le-holds (finished path slot ∷ ts) = omega (arith, running_now-le-holds ts)

abbrev pub ran_slot : Slot → ℕ
ran_slot passed_over = 0
ran_slot (ran a) = 1

abbrev pub begun : Task → ℕ
begun (running path) = 1
begun (written path slot) = ran_slot slot
begun (finished path slot) = ran_slot slot
begun _ = 0

abbrev pub passed_slot : Slot → ℕ
passed_slot passed_over = 1
passed_slot (ran a) = 0

abbrev pub passed : Task → ℕ
passed (written path slot) = passed_slot slot
passed (finished path slot) = passed_slot slot
passed _ = 0

module _ (fail_fast : Bool) where
  abbrev pub trigger_slot : Slot → ℕ
  trigger_slot passed_over = 0
  trigger_slot (ran a) = if triggers fail_fast a then 1 else 0

  abbrev pub trigger : Task → ℕ
  trigger (written path slot) = trigger_slot slot
  trigger (finished path slot) = trigger_slot slot
  trigger _ = 0

abbrev pub path_of : Task → String
path_of (waiting path) = path
path_of (holding path) = path
path_of (running path) = path
path_of (written path slot) = path
path_of (finished path slot) = path

module _ (c : Setting) where
  -- The slot holds what the file may answer.
  abbrev pub Holds : (path : String) → Slot → Type 0
  Holds path passed_over = Unit
  Holds path (ran a) = c.Answers path a

  abbrev pub IsSound : Task → Type 0
  IsSound (written path slot) = Holds path slot
  IsSound (finished path slot) = Holds path slot
  IsSound _ = Unit

  -- What an act does to the counts.
  pub record Effect (tokens : ℕ) (cancelled : Bool) (x y : Task) (tokens' : ℕ) (cancelled' : Bool)
      : Type 0 where
    pub held : tokens' + holds x ≡ tokens + holds y
    pub capped : tokens ≤ c.capacity → tokens' ≤ c.capacity
    pub falls : left y < left x
    pub same_path : path_of y ≡ path_of x
    pub keeps_sound : IsSound x → IsSound y
    pub stays : cancelled ≡ true → cancelled' ≡ true
    pub begins : cancelled ≡ true → begun y ≡ begun x
    pub cause : cancelled' ≡ true → (cancelled ≡ true) ⊎ (trigger c.fail_fast y ≡ 1)
    pub lasts : trigger c.fail_fast x ≤ trigger c.fail_fast y
    pub excused : (passed y ≡ passed x) ⊎ (cancelled' ≡ true)

  pub act-Effect :
      {tokens tokens' : ℕ} {cancelled cancelled' : Bool} {x y : Task}
      → Act c tokens cancelled x y tokens' cancelled'
      → Effect tokens cancelled x y tokens' cancelled'
  act-Effect (acquire h) = record {
    held = omega arith;
    capped = λ k. omega arith;
    falls = omega arith;
    same_path = refl;
    keeps_sound = λ k. tt;
    stays = λ k. k;
    begins = λ k. refl;
    cause = λ k. inl k;
    lasts = omega arith;
    excused = inl refl;
  }
  act-Effect (pass_over h) = record {
    held = refl;
    capped = λ k. k;
    falls = omega arith;
    same_path = refl;
    keeps_sound = λ k. tt;
    stays = λ k. k;
    begins = λ k. refl;
    cause = λ k. inl k;
    lasts = omega arith;
    excused = inr h;
  }
  act-Effect (begin h) = record {
    held = refl;
    capped = λ k. k;
    falls = omega arith;
    same_path = refl;
    keeps_sound = λ k. tt;
    stays = λ k. k;
    begins = λ k. cc;
    cause = λ k. inl k;
    lasts = omega arith;
    excused = inl refl;
  }
  act-Effect (end {answer = answer} r h) = record {
    held = refl;
    capped = λ k. k;
    falls = omega arith;
    same_path = refl;
    keeps_sound = λ k. r;
    stays = λ k. ground arith;
    begins = λ k. refl;
    cause = λ k. elim (Bool-cases (triggers c.fail_fast answer)) [
      | inl hit ↦ inr (rw hit refl)
      | inr miss ↦ inl (ground arith)
    ];
    lasts = omega arith;
    excused = inl refl;
  }
  act-Effect (release h) = record {
    held = omega arith;
    capped = λ k. omega arith;
    falls = omega arith;
    same_path = refl;
    keeps_sound = λ k. k;
    stays = λ k. k;
    begins = λ k. refl;
    cause = λ k. inl k;
    lasts = omega arith;
    excused = inl refl;
  }
