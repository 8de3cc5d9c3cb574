-- ===== src/Runner/Parallel/Ended.antt =====
-- internal/runner/parallel.go: every run of the files comes to its end, and what it returns.
use vigie.Prelude.{
  ℕ, zero, suc, ◌+◌, ◌*◌, ◌≤◌, ◌<◌, ◌≡◌, ◌⊎◌, inl, inr, refl, ap, Bool, true, false, ◌||◌, List, [],
  ◌∷◌, ◌++◌, map, arith, String, All, length,
}
use vigie.Runner.Parallel.{
  Task, waiting, holding, running, written, finished, passed_over, ran, Setting, Act, acquire,
  pass_over, begin, end, release, Fanout, FileAnswer, Step, act, interrupt, Reach, here, next,
  start_all, triggers,
}
use vigie.Runner.Parallel.Counted.{total, total-append, holds, left, act-Effect}
use vigie.Runner.Parallel.Invariant.{Inv, total_at, start_all-Inv, Step-Inv, Reach-Inv}

abbrev flag : Bool → ℕ
flag true = 0
flag false = 1

flag-le : (a b : Bool) → (a ≡ true → b ≡ true) → flag b ≤ flag a
flag-le true b h = rw (h refl) (omega arith)
flag-le false true h = omega arith
flag-le false false h = omega arith

-- The steps that a state can still make at most.
abbrev pub measure : Fanout → ℕ
measure s = total left s.tasks + flag s.cancelled

abbrev pub IsFinished : Task → Type 0
IsFinished (finished path slot) = Unit
IsFinished _ = ⊥

total_left_waiting : (items : List String) → total left (map waiting items) ≡ 4 * length items
total_left_waiting [] = omega arith
total_left_waiting (p ∷ ps) = omega (arith, total_left_waiting ps)

-- A task of a list, and what stands on its two sides.
record Found (P : Task → Type 0) (ts : List Task) : Type 0 where
  pub before : List Task
  pub task : Task
  pub after : List Task
  pub parts : ts ≡ before ++ task ∷ after
  pub has : P task

further : {P : Task → Type 0} (t : Task) {ts : List Task} → Found P ts → Found P (t ∷ ts)
further t f = record {
  before = t ∷ f.before;
  task = f.task;
  after = f.after;
  parts = ap (λ l. t ∷ l) f.parts;
  has = f.has;
}

first : {P : Task → Type 0} (t : Task) (ts : List Task) → P t → Found P (t ∷ ts)
first t ts h = record { before = []; task = t; after = ts; parts = refl; has = h }

abbrev IsWaiting : Task → Type 0
IsWaiting (waiting path) = Unit
IsWaiting _ = ⊥

abbrev IsHeld : Task → Type 0
IsHeld t = holds t ≡ 1

-- Where no goroutine holds the semaphore, one waits for it or all are done.
look_for :
    (ts : List Task)
    → Found IsHeld ts ⊎ ((total holds ts ≡ 0) × (Found IsWaiting ts ⊎ All IsFinished ts))
look_for [] = inr (refl, inr tt)
look_for (waiting path ∷ ts) = elim (look_for ts) [
  | inl held ↦ inl (further (waiting path) held)
  | inr rest ↦ inr (omega (arith, rest.0), inl (first (waiting path) ts tt))
]
look_for (holding path ∷ ts) = inl (first _ ts refl)
look_for (running path ∷ ts) = inl (first _ ts refl)
look_for (written path slot ∷ ts) = inl (first _ ts refl)
look_for (finished path slot ∷ ts) = elim (look_for ts) [
  | inl held ↦ inl (further (finished path slot) held)
  | inr rest ↦ inr (
    omega (arith, rest.0),
    elim rest.1 [ inl w ↦ inl (further (finished path slot) w) | inr all ↦ inr (tt, all) ],
  )
]

module _ (c : Setting) where
  Step-falls : {s t : Fanout} → Step c s t → measure t < measure s
  Step-falls {s} (act before after x y tokens cancelled e a same) =
      let effect = act-Effect c a in
      rw same (
        omega (
          arith,
          total_at left s.tasks before after x e,
          total-append left before (y ∷ after),
          effect.falls,
          flag-le s.cancelled cancelled effect.stays,
        ))
  Step-falls (interrupt outside idle same) = rw (same, idle) (omega arith)

  abbrev pub steps : {s t : Fanout} → Reach c s t → ℕ
  steps here = 0
  steps (next r step) = suc (steps r)

  steps-falls : {s t : Fanout} (r : Reach c s t) → steps r + measure t ≤ measure s
  steps-falls here = omega arith
  steps-falls (next r step) = omega (arith, steps-falls r, Step-falls step)

  -- A run of n files makes at most 4 n + 1 steps, however the goroutines are scheduled: four for each file and
  -- one for an interrupt.
  pub steps-le :
      (items : List String) (s : Fanout) (r : Reach c (start_all items) s)
      → steps r ≤ 4 * length items + 1
  steps-le items s r = omega (arith, steps-falls r, total_left_waiting items)

  module _ (some_room : 0 < c.capacity)
      (answer : (path : String) → (a : FileAnswer) × c.Answers path a) where
    held_act :
        (tokens : ℕ) (cancelled : Bool) (x : Task)
        → holds x ≡ 1
        → 0 < tokens
        → (y : Task) × (tokens' : ℕ) × (cancelled' : Bool) × Act c tokens cancelled x y tokens'
            cancelled'
    held_act tokens cancelled (waiting path) h live = absurd (omega (arith, h))
    held_act tokens true (holding path) h live =
        (written path passed_over, tokens, true, pass_over refl)
    held_act tokens false (holding path) h live = (running path, tokens, false, begin refl)
    held_act tokens cancelled (running path) h live =
        let (a, ok) = answer path in
        (written path (ran a), tokens, triggers c.fail_fast a || cancelled, end ok refl)
    held_act (suc left_over) cancelled (written path slot) h live =
        (finished path slot, left_over, cancelled, release refl)
    held_act zero cancelled (written path slot) h live = absurd (omega (arith, live))
    held_act tokens cancelled (finished path slot) h live = absurd (omega (arith, h))

    waiting_act :
        (tokens : ℕ) (cancelled : Bool) (x : Task)
        → IsWaiting x
        → tokens < c.capacity
        → (y : Task) × (tokens' : ℕ) × (cancelled' : Bool) × Act c tokens cancelled x y tokens'
            cancelled'
    waiting_act tokens cancelled (waiting path) w room =
        (holding path, suc tokens, cancelled, acquire room)
    waiting_act tokens cancelled (holding path) w room = elim w [ ]
    waiting_act tokens cancelled (running path) w room = elim w [ ]
    waiting_act tokens cancelled (written path slot) w room = elim w [ ]
    waiting_act tokens cancelled (finished path slot) w room = elim w [ ]

    step_at :
        (s : Fanout) (before after : List Task) (x y : Task) (tokens : ℕ) (cancelled : Bool)
        → s.tasks ≡ before ++ x ∷ after
        → Act c s.tokens s.cancelled x y tokens cancelled
        → (t : Fanout) × Step c s t
    step_at s before after x y tokens cancelled e a =
        (_, act before after x y tokens cancelled e a refl)

    progress :
        (items : List String) (s : Fanout)
        → Inv c items s
        → All IsFinished s.tasks ⊎ ((t : Fanout) × Step c s t)
    progress items s i = elim (look_for s.tasks) [
      | inl f ↦
          let at = total_at holds s.tasks f.before f.after f.task f.parts in
          let (y, tokens, cancelled, a) =
            held_act s.tokens s.cancelled f.task f.has (omega (arith, i.counted, at, f.has)) in
          inr (step_at s f.before f.after f.task y tokens cancelled f.parts a)
      | inr (free, inl f) ↦
          let (y, tokens, cancelled, a) =
            waiting_act s.tokens s.cancelled f.task f.has
              (omega (arith, i.counted, free, some_room)) in
          inr (step_at s f.before f.after f.task y tokens cancelled f.parts a)
      | inr (free, inr all) ↦ inl all
    ]

    run_on :
        (items : List String) (fuel : ℕ) (from s : Fanout)
        → measure s < fuel
        → Inv c items s
        → Reach c from s
        → (t : Fanout) × Reach c from t × All IsFinished t.tasks
    run_on items zero from s m i r = absurd (omega (arith, m))
    run_on items (suc fuel) from s m i r = elim (progress items s i) [
      | inl all ↦ (s, r, all)
      | inr (t, step) ↦
          run_on items fuel from t (omega (arith, m, Step-falls step)) (Step-Inv c items step i)
            (next r step)
    ]

    -- Where at least one file may run at a time and each file gives some answer, the goroutines never wait for
    -- one another: from each state that a run comes to, unless all are done there is a step, and there are
    -- steps from it to a state in which all are done.
    pub Reach-IsFinished :
        (items : List String) (s : Fanout)
        → Reach c (start_all items) s
        → (All IsFinished s.tasks ⊎ ((t : Fanout) × Step c s t))
          × ((t : Fanout) × Reach c s t × All IsFinished t.tasks)
    Reach-IsFinished items s r =
        let i = Reach-Inv c items r (start_all-Inv c items) in
        (progress items s i, run_on items (suc (measure s)) s s (omega arith) i here)
