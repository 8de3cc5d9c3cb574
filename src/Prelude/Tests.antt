-- ===== src/Prelude/Tests.antt =====
-- Boolean tests on the native numbers and on texts, and the conditional.
use Prim.Native.Nat.{ℕ, compare, Ordering}
use Prim.Native.String.{String}
use mathlib.Core.Path.{◌≡◌, refl, sym}
use mathlib.Core.Logic.{◌⊎◌, ◌≢◌, inl, inr}
use mathlib.Core.Bool.{Bool, true, false, not, ◌&&◌}
use mathlib.Core.Option.{Option, none, some}
use native.Mathlib.Omega.{arith}
use text.Mathlib.Text.{◌==◌}
use text.Mathlib.TextEquality.{eq_iff}

abbrev pub ltb : ℕ → ℕ → Bool
ltb a b = elim (compare a b) [ Ordering.lt ↦ true | _ ↦ false ]

abbrev pub leb : ℕ → ℕ → Bool
leb a b = elim (compare a b) [ Ordering.gt ↦ false | _ ↦ true ]

abbrev pub eqb : ℕ → ℕ → Bool
eqb a b = elim (compare a b) [ Ordering.eq ↦ true | _ ↦ false ]

infix 1 if◌then◌else◌
abbrev pub if◌then◌else◌ {ℓ} : {A : Type ℓ} → Bool → A → A → A
if true then x else y = x
if false then x else y = y

-- To split on a computed value and keep the equation.
pub Bool-cases : (b : Bool) → (b ≡ true) ⊎ (b ≡ false)
Bool-cases true = inl refl
Bool-cases false = inr refl

pub Option-cases {ℓ} : {A : Type ℓ} (o : Option A) → (o ≡ none) ⊎ ((a : A) × (o ≡ some a))
Option-cases none = inl refl
Option-cases (some a) = inr (a, refl)

pub ==→≡ : (s t : String) → (s == t) ≡ true → s ≡ t
==→≡ s t = (eq_iff s t).0

pub ==_self : (s : String) → (s == s) ≡ true
==_self s = (eq_iff s s).1 refl

pub ==_false : (s t : String) → (s == t) ≡ false → s ≢ t
==_false s t h = ground (arith, eq_iff s t)

pub ≢→== : (s t : String) → s ≢ t → (s == t) ≡ false
≢→== s t h = ground (arith, eq_iff s t)

pub &&-true : (x y : Bool) → (x && y) ≡ true → (x ≡ true) × (y ≡ true)
&&-true true y h = (refl, h)
&&-true false y h = cc

pub not-true : (x : Bool) → not x ≡ true → x ≡ false
not-true true h = sym h
not-true false h = refl
