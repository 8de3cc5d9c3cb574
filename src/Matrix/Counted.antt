-- ===== src/Matrix/Counted.antt =====
-- internal/matrix/matrix.go: how many combinations there are.
use native.Mathlib.Nat.{zero-mul, suc-mul, mul-one, one-mul, mul_assoc}
use vigie.Prelude.{
  ℕ, suc, ◌*◌, ◌≡◌, refl, sym, ap, ◌∙◌, List, [], ◌∷◌, length, length-append, arith, String,
}
use vigie.Value.{Items, nil, cons, Fields, end}
use vigie.Matrix.{Dim, extend, extend_all, multiply, cartesian}

abbrev pub size_of : Items → ℕ
size_of nil = 0
size_of (cons v items) = suc (size_of items)

abbrev pub product_of : List Dim → ℕ
product_of [] = 1
product_of (d ∷ dims) = size_of d.values * product_of dims

length-extend :
    (combo : Fields) (key : String) (values : Items)
    → length (extend combo key values) ≡ size_of values
unfolding extend
length-extend combo key nil = refl
length-extend combo key (cons v values) = ap suc (length-extend combo key values)

length-extend_all :
    (result : List Fields) (key : String) (values : Items)
    → length (extend_all result key values) ≡ length result * size_of values
unfolding extend_all
length-extend_all [] key values = sym (zero-mul (size_of values))
length-extend_all (combo ∷ result) key values =
    length-append (extend combo key values) (extend_all result key values)
    ∙ rw (length-extend combo key values, length-extend_all result key values)
        (omega (arith, suc-mul (length result) (size_of values)))

length-multiply :
    (result : List Fields) (dims : List Dim)
    → length (multiply result dims) ≡ length result * product_of dims
unfolding multiply
length-multiply result [] = sym (mul-one (length result))
length-multiply result (d ∷ dims) =
    length-multiply (extend_all result d.key d.values) dims
    ∙ rw (length-extend_all result d.key d.values)
        (mul_assoc (length result) (size_of d.values) (product_of dims))

-- The product of one dimension or more has as many combinations as the numbers of their values
-- multiplied; of no dimension it has none.
pub length-cartesian :
    (d : Dim) (dims : List Dim)
    → (length (cartesian (d ∷ dims)) ≡ product_of (d ∷ dims)) × (cartesian [] ≡ [])
unfolding cartesian
length-cartesian d dims =
    (length-multiply (end ∷ []) (d ∷ dims) ∙ one-mul (size_of d.values * product_of dims), refl)
