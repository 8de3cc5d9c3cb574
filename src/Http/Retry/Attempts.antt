-- ===== src/Http/Retry/Attempts.antt =====
-- internal/matchers/http.go: the attempts of evalHTTP, as many as the policy allows, and the first that
-- settles it.
use vigie.Prelude.{
  ℕ, zero, suc, ◌+◌, ◌≤◌, ◌<◌, ◌≡◌, ◌⊎◌, inl, inr, refl, true, false, List, [], ◌∷◌, ◌++◌, All,
  arith, ltb, Bool-cases,
}
use vigie.Http.Types.{Duration, Result}
use vigie.Http.Target.{Event, opened, closed, slept, sent}
use vigie.Http.Retry.{Verdict, returned, Turn, stop, again, pause, attempts}

-- The sum of a weight over the events.
abbrev pub total : (Event → ℕ) → List Event → ℕ
total weight [] = 0
total weight (e ∷ events) = weight e + total weight events

pub total-append :
    (weight : Event → ℕ) (xs ys : List Event)
    → total weight (xs ++ ys) ≡ total weight xs + total weight ys
total-append weight [] ys = omega arith
total-append weight (x ∷ xs) ys = omega (arith, total-append weight xs ys)

abbrev pub sent_one : Event → ℕ
sent_one (sent request) = 1
sent_one e = 0

abbrev pub slept_one : Event → ℕ
slept_one (slept d) = 1
slept_one e = 0

-- No port forward is opened or closed.
abbrev pub IsQuiet : Event → Type 0
IsQuiet opened = true ≡ false
IsQuiet closed = true ≡ false
IsQuiet (slept d) = Unit
IsQuiet (sent request) = Unit

pub pause-IsQuiet : (attempt : ℕ) (interval : Duration) → All IsQuiet (pause attempt interval)
pause-IsQuiet zero interval = tt
pause-IsQuiet (suc k) interval = (tt, tt)

pub pause-sent : (attempt : ℕ) (interval : Duration) → total sent_one (pause attempt interval) ≡ 0
pause-sent zero interval = refl
pause-sent (suc k) interval = omega arith

abbrev pub IsAgain : Turn → Type 0
IsAgain (stop verdict) = true ≡ false
IsAgain (again result) = Unit

-- The abstract policy, over the turns from `first` on, of which `left` are allowed: the verdict of the
-- first turn that stops; where none does, the Result of the last turn; where none is allowed, `last`.
abbrev pub IsStoppedAt : (turn : ℕ → List Event × Turn) (first left : ℕ) → Verdict → ℕ → Type 0
IsStoppedAt turn first left verdict i =
    (first ≤ i)
    × (i < first + left)
    × ((turn i).1 ≡ stop verdict)
    × ((j : ℕ) → first ≤ j → j < i → IsAgain (turn j).1)

abbrev pub IsLast :
    (turn : ℕ → List Event × Turn) (first left : ℕ) (last : Result) → Verdict → Type 0
IsLast turn first zero last verdict = verdict ≡ returned last
IsLast turn first (suc n) last verdict =
    (r : Result) × (i : ℕ) × (suc i ≡ first + suc n)
    × ((turn i).1 ≡ again r)
    × (verdict ≡ returned r)

abbrev pub IsDecided :
    (turn : ℕ → List Event × Turn) (first left : ℕ) (last : Result) → Verdict → Type 0
IsDecided turn first left last verdict =
    ((i : ℕ) × IsStoppedAt turn first left verdict i)
    ⊎ (((j : ℕ) → first ≤ j → j < first + left → IsAgain (turn j).1)
        × IsLast turn first left last verdict)

Turn-cases : (t : Turn) → ((v : Verdict) × (t ≡ stop v)) ⊎ ((r : Result) × (t ≡ again r))
Turn-cases (stop v) = inl (v, refl)
Turn-cases (again r) = inr (r, refl)

-- What holds from the second turn on holds from the first, which goes on.
later_too :
    (turn : ℕ → List Event × Turn) (first : ℕ) (r : Result) (bound : ℕ)
    → (turn first).1 ≡ again r
    → ((j : ℕ) → suc first ≤ j → j < bound → IsAgain (turn j).1)
    → (j : ℕ) → first ≤ j
    → j < bound
    → IsAgain (turn j).1
later_too turn first r bound e h j low high = elim (Bool-cases (ltb first j)) [
  | inl more ↦ h j (ground arith) high
  | inr same ↦ let first_is : j ≡ first = ground arith in rw (first_is, e) tt
]

one_more :
    (turn : ℕ → List Event × Turn) (first left : ℕ) (r last : Result) (verdict : Verdict)
    → (turn first).1 ≡ again r
    → IsDecided turn (suc first) left r verdict
    → IsDecided turn first (suc left) last verdict
one_more turn first left r last verdict e (inl (i, (low, high, at, before))) =
    inl (i, (omega arith, omega arith, at, later_too turn first r i e before))
one_more turn first zero r last verdict e (inr (all, v)) = inr (
  later_too turn first r (first + 1) e (λ j low high. all j low (omega arith)),
  (r, first, omega arith, e, v),
)
one_more turn first (suc n) r last verdict e (inr (all, (s, i, end, at, v))) = inr (
  later_too turn first r (first + suc (suc n)) e (λ j low high. all j low (omega arith)),
  (s, i, omega arith, at, v),
)

-- The attempts implement the policy, whatever the turns are: the verdict is that of the first turn that
-- stops, where all turns before it go on and it is one of those that are left. Where none stops, it is
-- the Result of the last of them, and where none is left, the Result that is given.
pub attempts-IsDecided :
    (turn : ℕ → List Event × Turn) (interval : Duration) (left first : ℕ) (last : Result)
    → IsDecided turn first left last (attempts turn interval left first last).1
unfolding attempts
attempts-IsDecided turn interval zero first last = inr (λ j low high. ground arith, refl)
attempts-IsDecided turn interval (suc left) first last = elim (Turn-cases (turn first).1) [
  | inl (v, e) ↦ rw e (inl (first, (omega arith, omega arith, e, λ j low high. ground arith)))
  | inr (r, e) ↦ rw e (
      one_more turn first left r last (attempts turn interval left (suc first) r).1 e
        (attempts-IsDecided turn interval left (suc first) r))
]
