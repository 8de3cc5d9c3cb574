-- ===== src/Prelude/Counting.antt =====
-- Lists of texts without repetition, and how long they can be.
use mathlib.Core.List.Perm
use mathlib.Core.List.{Perm, Permᴰ}
use mathlib.Core.Logic.{∥∥₁_elim}
use mathlib.Core.HLevel.{×_prop}
use vigie.Prelude.{
  All, subst, Bool, ap, ◌∙◌, Bool-cases, inl, inr, ==→≡, suc, ◌≤◌, String, ◌≡◌, refl, true, false,
  ◌++◌, contains-append, List, [], ◌∷◌, arith, ◌==◌, eq_iff, length, contains, if◌then◌else◌,
}

abbrev pub Distinct : List String → Type 0
Distinct [] = Unit
Distinct (x ∷ xs) = (contains x xs ≡ false) × Distinct xs

-- Every text of `xs` stands in `ys`.
abbrev pub Within : List String → List String → Type 0
Within xs ys = (x : String) → contains x xs ≡ true → contains x ys ≡ true

-- `xs` without the first `x`.
remove_one : String → List String → List String
remove_one x [] = []
remove_one x (y ∷ ys) = if y == x then ys else y ∷ remove_one x ys

length-remove_one :
    (x : String) (ys : List String)
    → contains x ys ≡ true
    → suc (length (remove_one x ys)) ≡ length ys
unfolding remove_one
length-remove_one x [] h = ground arith
length-remove_one x (y ∷ ys) h = ground (arith, length-remove_one x ys)

contains-remove_one :
    (x z : String) (ys : List String)
    → contains z ys ≡ true
    → (x == z) ≡ false
    → contains z (remove_one x ys) ≡ true
unfolding remove_one
contains-remove_one x z [] h ne = h
contains-remove_one x z (y ∷ ys) h ne =
    ground (arith, contains-remove_one x z ys, eq_iff y x, eq_iff y z, eq_iff x z)

remove_one-perm :
    (x : String) (ys : List String) → contains x ys ≡ true → Perm (x ∷ remove_one x ys) ys
unfolding remove_one
remove_one-perm x [] h = cc
remove_one-perm x (y ∷ ys) h = elim (Bool-cases (y == x)) [
  | inl e ↦ rw (e, ==→≡ y x e) (Perm.refl (x ∷ ys))
  | inr e ↦ rw e (
      Perm.trans (Perm.swap y x (remove_one x ys))
        (Perm.cons y (remove_one-perm x ys (ground arith))))
]

-- The pigeonhole principle.
pub length-le_of_Within : (xs ys : List String) → Distinct xs → Within xs ys → length xs ≤ length ys
length-le_of_Within [] ys d w = omega arith
length-le_of_Within (x ∷ xs) ys d w =
    let here : contains x ys ≡ true = w x (ground (arith, eq_iff x x)) in
    let rest : Within xs (remove_one x ys) =
      λ z m. contains-remove_one x z ys (w z (ground arith)) (ground (arith, eq_iff x z)) in
    omega (arith, length-le_of_Within xs (remove_one x ys) d.1 rest, length-remove_one x ys here)

pub Distinct-snoc :
    (xs : List String) (x : String) → Distinct xs → contains x xs ≡ false → Distinct (xs ++ x ∷ [])
Distinct-snoc [] x d h = (refl, tt)
Distinct-snoc (y ∷ ys) x d h = (
  ground (arith, contains-append y ys (x ∷ []), eq_iff x y, eq_iff y x),
  Distinct-snoc ys x d.1 (ground arith),
)

pub Within-append : (xs ys zs : List String) → Within xs zs → Within ys zs → Within (xs ++ ys) zs
Within-append xs ys zs h k x m = ground (arith, contains-append x xs ys, h x, k x)

-- A list without repetition within a list that is no longer holds the same texts.
pub Within-of_length :
    (xs ys : List String) → Distinct xs → Within xs ys → length ys ≤ length xs → Within ys xs
Within-of_length xs ys d w h z m = elim (Bool-cases (contains z xs)) [
  | inl found ↦ found
  | inr absent ↦ absurd (
      omega (
        arith,
        length-le_of_Within (z ∷ xs) ys (absent, d) (λ x k. ground (arith, w x, eq_iff z x, m)),
      ))
]

pub perm_of_Within :
    (xs ys : List String) → Distinct xs → Within xs ys → length ys ≤ length xs → Perm xs ys
perm_of_Within [] [] d w h = Perm.refl []
perm_of_Within [] (y ∷ ys) d w h = absurd (omega arith)
perm_of_Within (x ∷ xs) ys d w h =
    let here : contains x ys ≡ true = w x (ground (arith, eq_iff x x)) in
    let rest : Within xs (remove_one x ys) =
      λ z m. contains-remove_one x z ys (w z (ground arith)) (ground (arith, eq_iff x z)) in
    Perm.trans
      (Perm.cons x
        (perm_of_Within xs (remove_one x ys) d.1 rest (omega (arith, length-remove_one x ys here))))
      (remove_one-perm x ys here)

contains-permᴰ : {xs ys : List String} (x : String) → Permᴰ xs ys → contains x xs ≡ contains x ys
contains-permᴰ x Permᴰ.nil = refl
contains-permᴰ x (Permᴰ.cons {a = a} {b = b} e p) =
    ground (arith, contains-permᴰ x p, ap (λ y. y == x) e)
contains-permᴰ x (Permᴰ.swap {a = a} {b = b} e f) =
    ground (arith, ap (λ y. y == x) e, ap (λ y. y == x) f)
contains-permᴰ x (Permᴰ.trans p q) = contains-permᴰ x p ∙ contains-permᴰ x q

Bool-set : IsSet Bool
Bool-set = hlevel

pub contains-perm : {xs ys : List String} (x : String) → Perm xs ys → contains x xs ≡ contains x ys
contains-perm x p = ∥∥₁_elim p (Bool-set _ _) (contains-permᴰ x)

Distinct-permᴰ : {xs ys : List String} → Permᴰ xs ys → Distinct xs → Distinct ys
Distinct-permᴰ Permᴰ.nil d = tt
Distinct-permᴰ (Permᴰ.cons {a = a} {l₂ = ys} e p) d =
    (ground (arith, contains-permᴰ a p, ap (λ z. contains z ys) e, d.0), Distinct-permᴰ p d.1)
Distinct-permᴰ (Permᴰ.swap {a = a} {b = b} {a' = a'} {b' = b'} {l = l} e f) d = (
  ground (
    arith,
    eq_iff b a,
    eq_iff b' a',
    d.0,
    d.1.0,
    ap (λ z. contains z l) e,
    ap (λ z. contains z l) f,
  ),
  (ground (arith, d.0, ap (λ z. contains z l) e), d.1.1),
)
Distinct-permᴰ (Permᴰ.trans p q) d = Distinct-permᴰ q (Distinct-permᴰ p d)

Distinct-prop : (xs : List String) → IsProp (Distinct xs)
Distinct-prop [] = hlevel
Distinct-prop (x ∷ xs) = ×_prop (Bool-set _ _) (Distinct-prop xs)

pub Distinct-perm : {xs ys : List String} → Perm xs ys → Distinct xs → Distinct ys
Distinct-perm {ys = ys} p d = ∥∥₁_elim p (Distinct-prop ys) (λ q. Distinct-permᴰ q d)

module _ {ℓ κ} {A : Type ℓ} (P : A → Type κ) (P_prop : (a : A) → IsProp (P a)) where
  All-permᴰ : {xs ys : List A} → Permᴰ xs ys → All P xs → All P ys
  All-permᴰ Permᴰ.nil h = tt
  All-permᴰ (Permᴰ.cons e p) h = (subst P e h.0, All-permᴰ p h.1)
  All-permᴰ (Permᴰ.swap e f) h = (subst P f h.1.0, (subst P e h.0, h.1.1))
  All-permᴰ (Permᴰ.trans p q) h = All-permᴰ q (All-permᴰ p h)

  All-prop : (xs : List A) → IsProp (All P xs)
  All-prop [] = hlevel
  All-prop (x ∷ xs) = ×_prop (P_prop x) (All-prop xs)

  pub All-perm : {xs ys : List A} → Perm xs ys → All P xs → All P ys
  All-perm {ys = ys} p h = ∥∥₁_elim p (All-prop ys) (λ q. All-permᴰ q h)
