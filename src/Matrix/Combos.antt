-- ===== src/Matrix/Combos.antt =====
-- internal/matrix/matrix.go: what is in the product, and what is left of it.
use vigie.Prelude.{
  String, ◌≡◌, refl, true, false, Option, none, some, List, [], ◌∷◌, ◌==◌, eq_iff, if◌then◌else◌,
  All, All-append, Bool-cases, Option-cases, inl, inr, ◌⊎◌, arith,
}
use vigie.Value.{Value, Items, nil, cons, Fields, end, field, get, put}
use vigie.Matrix.{
  Dim, extend, extend_all, multiply, cartesian, matches_any_exclude, keep_unmatched, maps_at,
  dims_of, expand_dims, expand, include_all, ok, panic,
}

pub get-put :
    (k j : String) (v : Value) (m : Fields)
    → get k (put j v m) ≡ (if j == k then some v else get k m)
unfolding get put
get-put k j v end = refl
get-put k j v (field i w m) = ground (arith, get-put k j v m, eq_iff i j, eq_iff i k, eq_iff j k)

abbrev pub InItems : Value → Items → Type 0
InItems v nil = ⊥
InItems v (cons w items) = (w ≡ v) ⊎ InItems v items

-- The values of each dimension; of two with one key, the later.
abbrev pub Choices : Type 0
Choices = String → Option Items

abbrev pub add_dim : Choices → String → Items → Choices
add_dim choices key values k = if key == k then some values else choices k

abbrev pub choices_of : Choices → List Dim → Choices
choices_of choices [] = choices
choices_of choices (d ∷ dims) = choices_of (add_dim choices d.key d.values) dims

-- What a combination holds for a key: one of the dimension's values, and nothing for any other key.
abbrev pub IsChoice : Option Items → Option Value → Type 0
IsChoice none held = held ≡ none
IsChoice (some values) held = (v : Value) × (held ≡ some v) × InItems v values

abbrev pub IsCombo : Choices → Fields → Type 0
IsCombo choices combo = (k : String) → IsChoice (choices k) (get k combo)

IsCombo-put :
    (choices : Choices) (combo : Fields) (key : String) (values : Items) (v : Value)
    → IsCombo choices combo
    → InItems v values
    → IsCombo (add_dim choices key values) (put key v combo)
IsCombo-put choices combo key values v h i k = elim (Bool-cases (key == k)) [
  | inl e ↦ rw (get-put k key v combo, e) (v, refl, i)
  | inr e ↦ rw (get-put k key v combo, e) (h k)
]

IsCombo-extend :
    (choices : Choices) (combo : Fields) (key : String) (all values : Items)
    → IsCombo choices combo
    → ((v : Value) → InItems v values → InItems v all)
    → All (IsCombo (add_dim choices key all)) (extend combo key values)
unfolding extend
IsCombo-extend choices combo key all nil h w = tt
IsCombo-extend choices combo key all (cons v values) h w = (
  IsCombo-put choices combo key all v h (w v (inl refl)),
  IsCombo-extend choices combo key all values h (λ u i. w u (inr i)),
)

IsCombo-extend_all :
    (choices : Choices) (result : List Fields) (key : String) (values : Items)
    → All (IsCombo choices) result
    → All (IsCombo (add_dim choices key values)) (extend_all result key values)
unfolding extend_all
IsCombo-extend_all choices [] key values h = tt
IsCombo-extend_all choices (combo ∷ result) key values h =
    All-append (IsCombo (add_dim choices key values)) (extend combo key values)
      (extend_all result key values) (IsCombo-extend choices combo key values values h.0 (λ v i. i))
      (IsCombo-extend_all choices result key values h.1)

IsCombo-multiply :
    (choices : Choices) (result : List Fields) (dims : List Dim)
    → All (IsCombo choices) result
    → All (IsCombo (choices_of choices dims)) (multiply result dims)
unfolding multiply
IsCombo-multiply choices result [] h = h
IsCombo-multiply choices result (d ∷ dims) h =
    IsCombo-multiply (add_dim choices d.key d.values) (extend_all result d.key d.values) dims
      (IsCombo-extend_all choices result d.key d.values h)

abbrev pub no_choices : Choices
no_choices k = none

IsCombo-cartesian : (dims : List Dim) → All (IsCombo (choices_of no_choices dims)) (cartesian dims)
unfolding cartesian get
IsCombo-cartesian [] = tt
IsCombo-cartesian (d ∷ dims) = IsCombo-multiply no_choices (end ∷ []) (d ∷ dims) ((λ k. refl), tt)

module _ {ℓ} (P : Fields → Type ℓ) (excludes : List Fields) where
  kept-All :
      (product out : List Fields)
      → All P product
      → keep_unmatched excludes product ≡ some out
      → All (λ c. P c × (matches_any_exclude c excludes ≡ some false)) out
  unfolding keep_unmatched
  kept-All [] out u h = let e : [] ≡ out = cc in rw (← e) tt
  kept-All (c ∷ product) out u h = elim (Option-cases (matches_any_exclude c excludes)) [
    | inl e ↦ let bad : none ≡ some out = rw (e, keep_unmatched) at h in cc
    | inr (true, e) ↦ kept-All product out u.1 (rw (e, keep_unmatched) at h)
    | inr (false, e) ↦ elim (Option-cases (keep_unmatched excludes product)) [
      | inl n ↦ let bad : none ≡ some out = rw (e, n, keep_unmatched) at h in cc
      | inr (rest, r) ↦
          let whole : some (c ∷ rest) ≡ some out = rw (e, r, keep_unmatched) at h in
          let same : c ∷ rest ≡ out = cc in rw (← same) ((u.0, e), kept-All product rest u.1 r)
    ]
  ]

-- Where nothing is included, each combination that Expand returns holds for each dimension one of the
-- dimension's values and for other keys nothing, and matches no exclude.
pub expand_lem :
    (raw : Fields) (excludes : List Fields) (dims : List Dim) (out : List Fields)
    → maps_at "exclude" raw ≡ some excludes
    → maps_at "include" raw ≡ some []
    → dims_of raw ≡ inr dims
    → expand raw ≡ ok out
    → All
        (λ c.
          IsCombo (choices_of no_choices dims) c × (matches_any_exclude c excludes ≡ some false))
        out
unfolding expand expand_dims include_all
expand_lem raw excludes dims out he hi hd h =
    elim (Option-cases (keep_unmatched excludes (cartesian dims))) [
      | inl n ↦ let bad : panic ≡ ok out = rw (he, hi, hd, n, expand, expand_dims) at h in cc
      | inr (kept, k) ↦
          let whole : ok kept ≡ ok out = rw (he, hi, hd, k, expand, expand_dims) at h in
          let same : kept ≡ out = cc in
          rw (← same) (
            kept-All (IsCombo (choices_of no_choices dims)) excludes (cartesian dims) kept
              (IsCombo-cartesian dims) k)
    ]
