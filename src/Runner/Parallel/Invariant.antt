-- ===== src/Runner/Parallel/Invariant.antt =====
-- internal/runner/parallel.go: what holds at each moment of a run of the files.
use vigie.Prelude.{
  ℕ, ◌+◌, ◌≤◌, ◌<◌, ◌≡◌, ◌⊎◌, inl, inr, refl, sym, ap, ◌∙◌, subst, Bool, true, List, [], ◌∷◌, ◌++◌,
  map, arith, String, All,
}
use vigie.Runner.Parallel.{
  Task, waiting, Setting, Fanout, Step, act, interrupt, Reach, here, next, start_all,
}
use vigie.Runner.Parallel.Counted.{
  total, total-append, holds, passed, trigger, path_of, IsSound, Effect, act-Effect,
}

-- What the goroutines have in common with those before, place by place.
pub put_same {ℓ} :
    {A : Type ℓ} (f : Task → A) (before after : List Task) (x y : Task)
    → f y ≡ f x
    → map f (before ++ y ∷ after) ≡ map f (before ++ x ∷ after)
put_same f [] after x y e = ap (λ p. p ∷ map f after) e
put_same f (b ∷ before) after x y e = ap (λ l. f b ∷ l) (put_same f before after x y e)

All-put {κ} :
    (P : Task → Type κ) (before after : List Task) (x y : Task)
    → (P x → P y)
    → All P (before ++ x ∷ after)
    → All P (before ++ y ∷ after)
All-put P [] after x y f h = (f h.0, h.1)
All-put P (b ∷ before) after x y f h = (h.0, All-put P before after x y f h.1)

pub total_at :
    (f : Task → ℕ) (ts before after : List Task) (x : Task)
    → ts ≡ before ++ x ∷ after
    → total f ts ≡ total f before + (f x + total f after)
total_at f ts before after x e = ap (total f) e ∙ total-append f before (x ∷ after)

module _ (c : Setting) where
  -- The tokens in the channel are those of the goroutines that hold the semaphore, and there is room for them.
  -- The goroutines stand in the order of the files. A slot holds an answer of its file. A file is left out only
  -- if the context was cancelled, by the caller or by a file with a failure.
  pub record Inv (items : List String) (s : Fanout) : Type 0 where
    pub counted : s.tokens ≡ total holds s.tasks
    pub capped : s.tokens ≤ c.capacity
    pub in_order : map path_of s.tasks ≡ items
    pub sound : All (IsSound c) s.tasks
    pub excused : 0 < total passed s.tasks → s.cancelled ≡ true
    pub caused :
        s.cancelled ≡ true → (c.interruptible ≡ true) ⊎ (0 < total (trigger c.fail_fast) s.tasks)

  waiting-Inv :
      (items : List String)
      → (total holds (map waiting items) ≡ 0)
        × (map path_of (map waiting items) ≡ items)
        × All (IsSound c) (map waiting items)
        × (total passed (map waiting items) ≡ 0)
  waiting-Inv [] = (refl, refl, tt, refl)
  waiting-Inv (p ∷ ps) =
      let (h, o, s, q) = waiting-Inv ps in
      (omega (arith, h), ap (λ l. p ∷ l) o, (tt, s), omega (arith, q))

  module _ (items : List String) where
    act-Inv :
        (s : Fanout) (before after : List Task) (x y : Task) (tokens : ℕ) (cancelled : Bool)
        → s.tasks ≡ before ++ x ∷ after
        → Effect c s.tokens s.cancelled x y tokens cancelled
        → Inv items s
        → Inv items (record { tasks = before ++ y ∷ after; tokens = tokens; cancelled = cancelled })
    act-Inv s before after x y tokens cancelled e effect i =
        let old = λ (f : Task → ℕ). total_at f s.tasks before after x e in
        let new = λ (f : Task → ℕ). total-append f before (y ∷ after) in
        record {
          counted = omega (arith, old holds, new holds, i.counted, effect.held);
          capped = effect.capped i.capped;
          in_order =
              put_same path_of before after x y effect.same_path
              ∙ (ap (map path_of) (sym e) ∙ i.in_order);
          sound = All-put (IsSound c) before after x y effect.keeps_sound (rw e at i.sound);
          excused = λ some_passed. elim effect.excused [
            | inl same ↦ effect.stays (i.excused (omega (arith, old passed, new passed)))
            | inr done ↦ done
          ];
          caused = λ now. elim (effect.cause now) [
            | inl earlier ↦ elim (i.caused earlier) [
              | inl outside ↦ inl outside
              | inr failed ↦ inr (
                  omega (arith, old (trigger c.fail_fast), new (trigger c.fail_fast), effect.lasts))
            ]
            | inr fresh ↦ inr (omega (arith, new (trigger c.fail_fast)))
          ];
        }

    pub Step-Inv : {s t : Fanout} → Step c s t → Inv items s → Inv items t
    Step-Inv {s} (act before after x y tokens cancelled e a same) i =
        subst (Inv items) (sym same)
          (act-Inv s before after x y tokens cancelled e (act-Effect c a) i)
    Step-Inv {s} (interrupt outside idle same) i = subst (Inv items) (sym same) (record {
      counted = i.counted;
      capped = i.capped;
      in_order = i.in_order;
      sound = i.sound;
      excused = λ p. refl;
      caused = λ now. inl outside;
    })

    pub start_all-Inv : Inv items (start_all items)
    start_all-Inv =
        let (h, o, s, q) = waiting-Inv items in
        record {
          counted = sym h;
          capped = omega arith;
          in_order = o;
          sound = s;
          excused = λ p. absurd (omega (arith, q));
          caused = λ now. cc;
        }

    pub Reach-Inv : {s t : Fanout} → Reach c s t → Inv items s → Inv items t
    Reach-Inv here i = i
    Reach-Inv (next r step) i = Step-Inv step (Reach-Inv r i)
