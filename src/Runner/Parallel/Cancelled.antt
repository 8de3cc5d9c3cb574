-- ===== src/Runner/Parallel/Cancelled.antt =====
-- internal/runner/parallel.go, runner.go and apply.go: what becomes of the files once a run is cancelled.
use vigie.Prelude.{
  ◌<◌, ◌≡◌, ◌⊎◌, inl, inr, refl, sym, ap, ◌∙◌, true, List, [], ◌∷◌, map, String, All,
}
use vigie.Runner.Expand.Listed.{Pairs}
use vigie.Runner.Parallel.{
  Task, waiting, holding, running, written, finished, Slot, passed_over, ran, Setting, Fanout,
  FileAnswer, Step, act, interrupt, Reach, here, next, start_all,
}
use vigie.Runner.Parallel.Counted.{begun, path_of, Holds, IsSound, act-Effect}
use vigie.Runner.Parallel.Invariant.{put_same, start_all-Inv, Reach-Inv}
use vigie.Runner.Parallel.Ended.{IsFinished, Reach-IsFinished}

module _ (c : Setting) where
  -- How the goroutine `x` ends: with an answer of its file if the file was begun, and else with none.
  abbrev pub EndsAs : Task → Task → Type 0
  EndsAs x (finished path slot) =
      (path ≡ path_of x)
      × (((begun x ≡ 1) × (answer : FileAnswer) × c.Answers path answer × (slot ≡ ran answer))
          ⊎ ((begun x ≡ 0) × (slot ≡ passed_over)))
  EndsAs x _ = ⊥

  slot-EndsAs :
      (x : Task) (path : String) (slot : Slot)
      → path ≡ path_of x
      → begun (finished path slot) ≡ begun x
      → Holds c path slot
      → EndsAs x (finished path slot)
  slot-EndsAs x path passed_over p b h = (p, inr (sym b, refl))
  slot-EndsAs x path (ran a) p b h = (p, inl (sym b, a, h, refl))

  finished-EndsAs :
      (xs ys : List Task)
      → map path_of ys ≡ map path_of xs
      → map begun ys ≡ map begun xs
      → All (IsSound c) ys
      → All IsFinished ys
      → Pairs EndsAs xs ys
  finished-EndsAs [] [] p b s f = tt
  finished-EndsAs [] (y ∷ ys) p b s f = cc
  finished-EndsAs (x ∷ xs) [] p b s f = cc
  finished-EndsAs (x ∷ xs) (finished path slot ∷ ys) p b s f =
      let same_path : path ≡ path_of x = cc in
      let same_begun : begun (finished path slot) ≡ begun x = cc in
      let paths : map path_of ys ≡ map path_of xs = cc in
      let counts : map begun ys ≡ map begun xs = cc in
      (slot-EndsAs x path slot same_path same_begun s.0, finished-EndsAs xs ys paths counts s.1 f.1)
  finished-EndsAs (x ∷ xs) (waiting path ∷ ys) p b s f = absurd f.0
  finished-EndsAs (x ∷ xs) (holding path ∷ ys) p b s f = absurd f.0
  finished-EndsAs (x ∷ xs) (running path ∷ ys) p b s f = absurd f.0
  finished-EndsAs (x ∷ xs) (written path slot ∷ ys) p b s f = absurd f.0

  -- The run is still cancelled, and the same files are begun.
  abbrev pub BeginsNone : Fanout → Fanout → Type 0
  BeginsNone s t = (t.cancelled ≡ true) × (map begun t.tasks ≡ map begun s.tasks)

  Step-BeginsNone : {s t : Fanout} → Step c s t → s.cancelled ≡ true → BeginsNone s t
  Step-BeginsNone {s} (act before after x y tokens cancelled e a same) idle =
      let effect = act-Effect c a in
      rw same (
        effect.stays idle,
        put_same begun before after x y (effect.begins idle) ∙ ap (map begun) (sym e),
      )
  Step-BeginsNone (interrupt outside live same) idle = rw same (refl, refl)

  Reach-BeginsNone : {s t : Fanout} → Reach c s t → s.cancelled ≡ true → BeginsNone s t
  Reach-BeginsNone here idle = (idle, refl)
  Reach-BeginsNone (next r step) idle =
      let (still, same) = Reach-BeginsNone r idle in
      let (last, equal) = Step-BeginsNone step still in (last, equal ∙ same)

  -- Where the semaphore has room and each file has an answer: once a run is cancelled it stays so, and no
  -- further file is begun, whatever the schedule. All goroutines can still come to their end, and whenever they
  -- all are at it, exactly the files that were begun have an answer of theirs, and the others are left out.
  pub Reach-EndsAs :
      0 < c.capacity
      → ((path : String) → (answer : FileAnswer) × c.Answers path answer)
      → (items : List String) (s : Fanout) → Reach c (start_all items) s
      → s.cancelled ≡ true
      → ((t : Fanout)
          → Reach c s t
          → BeginsNone s t × (All IsFinished t.tasks → Pairs EndsAs s.tasks t.tasks))
        × ((t : Fanout) × Reach c s t × All IsFinished t.tasks)
  Reach-EndsAs room answers items s r idle =
      let i = Reach-Inv c items r (start_all-Inv c items) in
      (
        λ t on.
            let same = Reach-BeginsNone on idle in
            let j = Reach-Inv c items on i in
            (same, finished-EndsAs s.tasks t.tasks (j.in_order ∙ sym i.in_order) same.1 j.sound),
        (Reach-IsFinished c room answers items s r).1,
      )
