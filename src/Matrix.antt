-- ===== src/Matrix.antt =====
-- internal/matrix/matrix.go: the combinations of a test's matrix. The order in which an iteration meets
-- the keys of a map is the order of the entries of its Fields.
pub mod Combos
pub mod Counted
pub mod Merged
pub mod Cases
pub mod Samples
use vigie.Prelude.{
  String, ℕ, Bool, true, false, not, ◌||◌, ◌&&◌, Option, none, some, List, [], ◌∷◌, ◌++◌, ◌==◌, eqb,
  if◌then◌else◌, ◌⊎◌, inl, inr,
}
use Prim.Native.Nat.{◌%◌, ◌/◌}
use vigie.Prelude.Int.{ℤ, eq_int}
use vigie.Value.{
  Value, null, bool, int, float, str, slice, object, Items, nil, cons, Fields, end, field, get, put,
}

-- == on float64: a NaN equals nothing, and the two zeros equal each other.
abbrev pub is_nan : ℕ → Bool
is_nan bits = eqb (bits / 4503599627370496 % 2048) 2047 && not (eqb (bits % 4503599627370496) 0)

abbrev pub is_zero_float : ℕ → Bool
is_zero_float bits = eqb (bits % 9223372036854775808) 0

abbrev pub equal_floats : ℕ → ℕ → Bool
equal_floats m n = not (is_nan m) && (eqb m n || is_zero_float m && is_zero_float n)

abbrev pub equal_bools : Bool → Bool → Bool
equal_bools true c = c
equal_bools false c = not c

-- == on two values of type `any`: `none` is the panic at two values of one type that has no ==.
unfoldable pub equal_any : Value → Value → Option Bool
unfolding eq_int
equal_any null null = some true
equal_any (bool b) (bool c) = some (equal_bools b c)
equal_any (int m) (int n) = some (eq_int m n)
equal_any (float m) (float n) = some (equal_floats m n)
equal_any (str s) (str t) = some (s == t)
equal_any (slice xs) (slice ys) = none
equal_any (object m) (object n) = none
equal_any _ _ = some false

-- matchesExclude; a panic of the comparison is `none`.
unfoldable pub matches_exclude : (combo rule : Fields) → Option Bool
unfolding equal_any get
matches_exclude combo end = some true
matches_exclude combo (field k v rule) =
    let rest = matches_exclude combo rule in
    elim (get k combo) [
      | none ↦ some false
      | some cv ↦ elim (equal_any cv v) [ none ↦ none | some false ↦ some false | some true ↦ rest ]
    ]

unfoldable pub matches_any_exclude : (combo : Fields) → (excludes : List Fields) → Option Bool
unfolding matches_exclude
matches_any_exclude combo [] = some false
matches_any_exclude combo (rule ∷ rules) =
    let rest = matches_any_exclude combo rules in
    elim (matches_exclude combo rule) [ none ↦ none | some true ↦ some true | some false ↦ rest ]

unfoldable pub is_subset : (sub super : Fields) → Option Bool
unfolding equal_any get
is_subset end super = some true
is_subset (field k v sub) super =
    let rest = is_subset sub super in
    elim (get k super) [
      | none ↦ some false
      | some sv ↦ elim (equal_any sv v) [ none ↦ none | some false ↦ some false | some true ↦ rest ]
    ]

unfoldable pub slice_of_maps : Items → Option (List Fields)
slice_of_maps nil = some []
slice_of_maps (cons v items) =
    let rest = slice_of_maps items in
    elim v [ object m ↦ elim rest [ none ↦ none | some out ↦ some (m ∷ out) ] | _ ↦ none ]

-- toSliceOfMaps
unfoldable pub to_slice_of_maps : Value → Option (List Fields)
unfolding slice_of_maps
to_slice_of_maps (slice items) = slice_of_maps items
to_slice_of_maps _ = none

pub record Dim : Type 0 where
  pub key : String
  pub values : Items

-- The loop over the values: each in a copy of the combination.
unfoldable pub extend : Fields → String → Items → List Fields
unfolding put
extend existing key nil = []
extend existing key (cons v values) = put key v existing ∷ extend existing key values

unfoldable pub extend_all : List Fields → String → Items → List Fields
unfolding extend
extend_all [] key values = []
extend_all (existing ∷ result) key values =
    extend existing key values ++ extend_all result key values

unfoldable pub multiply : List Fields → List Dim → List Fields
unfolding extend_all
multiply result [] = result
multiply result (d ∷ dims) = multiply (extend_all result d.key d.values) dims

unfoldable pub cartesian : List Dim → List Fields
unfolding multiply
cartesian [] = []
cartesian (d ∷ dims) = multiply (end ∷ []) (d ∷ dims)

-- The loop that filters the product.
unfoldable pub keep_unmatched : List Fields → List Fields → Option (List Fields)
unfolding matches_any_exclude
keep_unmatched excludes [] = some []
keep_unmatched excludes (combo ∷ product) =
    let rest = keep_unmatched excludes product in
    elim (matches_any_exclude combo excludes) [
      | none ↦ none
      | some true ↦ rest
      | some false ↦ elim rest [ none ↦ none | some out ↦ some (combo ∷ out) ]
    ]

-- for k, v := range inc { combo[k] = v }
unfoldable pub put_all : Fields → Fields → Fields
unfolding put
put_all end combo = combo
put_all (field k v inc) combo = put_all inc (put k v combo)

-- The loop over the combinations for one include: they, and whether one was merged into.
unfoldable pub merge_into : Fields → List Fields → Option (List Fields × Bool)
unfolding is_subset put_all
merge_into inc [] = some ([], false)
merge_into inc (combo ∷ combos) =
    let rest = merge_into inc combos in
    elim (is_subset inc combo) [
      | none ↦ none
      | some subset ↦ elim rest [
        | none ↦ none
        | some (out, merged) ↦
            some ((if subset then put_all inc combo else combo) ∷ out, subset || merged)
      ]
    ]

unfoldable pub include_all : List Fields → List Fields → Option (List Fields)
unfolding merge_into
include_all [] filtered = some filtered
include_all (inc ∷ includes) filtered = elim (merge_into inc filtered) [
  | none ↦ none
  | some (out, merged) ↦ include_all includes (if merged then out else out ++ put_all inc end ∷ [])
]

pub data MatrixError : Type 0 where
  exclude_not_maps include_not_maps : MatrixError
  dimension_not_list : (key : String) → MatrixError

pub data Expanded : Type 0 where
  ok : List Fields → Expanded
  err : MatrixError → Expanded
  panic : Expanded

abbrev pub and_dim : Dim → MatrixError ⊎ List Dim → MatrixError ⊎ List Dim
and_dim d (inl e) = inl e
and_dim d (inr dims) = inr (d ∷ dims)

-- The loop that builds the dimensions.
unfoldable pub dims_of : Fields → MatrixError ⊎ List Dim
dims_of end = inr []
dims_of (field k v raw) =
    let rest = dims_of raw in
    if k == "exclude" || k == "include" then rest else elim v [
      | slice values ↦ and_dim (record { key = k; values = values }) rest
      | _ ↦ inl (dimension_not_list k)
    ]

-- An optional key that must be a list of maps.
unfoldable pub maps_at : String → Fields → Option (List Fields)
unfolding get to_slice_of_maps
maps_at key raw = elim (get key raw) [ none ↦ some [] | some v ↦ to_slice_of_maps v ]

abbrev pub expanded : Option (List Fields) → Expanded
expanded none = panic
expanded (some out) = ok out

-- What Expand does once it has read its keys.
unfoldable pub expand_dims : (excludes includes : List Fields) → List Dim → Expanded
unfolding cartesian keep_unmatched include_all
expand_dims excludes includes dims = elim (keep_unmatched excludes (cartesian dims)) [
  | none ↦ panic
  | some filtered ↦ expanded (include_all includes filtered)
]

unfoldable pub expand : Fields → Expanded
unfolding maps_at dims_of expand_dims
expand raw = elim (maps_at "exclude" raw) [
  | none ↦ err exclude_not_maps
  | some excludes ↦ elim (maps_at "include" raw) [
    | none ↦ err include_not_maps
    | some includes ↦ elim (dims_of raw) [
      | inl e ↦ err e
      | inr dims ↦ expand_dims excludes includes dims
    ]
  ]
]
