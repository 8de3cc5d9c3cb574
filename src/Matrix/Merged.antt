-- ===== src/Matrix/Merged.antt =====
-- internal/matrix/matrix.go: what the merge of an include changes.
use vigie.Prelude.{
  String, ◌≡◌, refl, sym, ap, ◌∙◌, Bool, true, false, Option, none, some, List, [], ◌∷◌, ◌==◌,
  eq_iff, ==→≡, contains, Bool-cases, Option-cases, inl, inr, ◌⊎◌, arith,
}
use vigie.Prelude.Counting.{Distinct}
use vigie.Value.{Value, Fields, end, field, get, put}
use vigie.Matrix.{equal_any, is_subset, put_all}
use vigie.Matrix.Combos.{get-put}

abbrev pub keys_of : Fields → List String
keys_of end = []
keys_of (field k v m) = k ∷ keys_of m

-- The two hold the same for a key, or two values that == calls equal.
abbrev pub SameAt : String → Fields → Fields → Type 0
SameAt k before after =
    (get k after ≡ get k before)
    ⊎ ((v w : Value) × (get k before ≡ some v)
        × (get k after ≡ some w)
        × (equal_any v w ≡ some true))

-- A subset holds its first key, with an equal value, and the rest is a subset.
is_subset-field :
    (k : String) (v : Value) (sub super : Fields)
    → is_subset (field k v sub) super ≡ some true
    → (sv : Value) × (get k super ≡ some sv)
      × (equal_any sv v ≡ some true)
      × (is_subset sub super ≡ some true)
unfolding is_subset
is_subset-field k v sub super h = elim (Option-cases (get k super)) [
  | inl e ↦ let bad : some false ≡ some true = rw (e, is_subset) at h in cc
  | inr (sv, e) ↦ elim (Option-cases (equal_any sv v)) [
    | inl n ↦ let bad : none ≡ some true = rw (e, n, is_subset) at h in cc
    | inr (false, n) ↦ let bad : some false ≡ some true = rw (e, n, is_subset) at h in cc
    | inr (true, n) ↦ (sv, e, n, rw (e, n, is_subset) at h)
  ]
]

-- What is_subset makes of what the super map holds for the first key, and of the rest.
abbrev first_field : Option Value → Value → Option Bool → Option Bool
first_field held v rest = elim held [
  | none ↦ some false
  | some sv ↦ elim (equal_any sv v) [ none ↦ none | some false ↦ some false | some true ↦ rest ]
]

-- A write of a key that the subset does not have.
is_subset-put :
    (sub super : Fields) (k : String) (v : Value)
    → contains k (keys_of sub) ≡ false
    → is_subset sub (put k v super) ≡ is_subset sub super
unfolding is_subset
is_subset-put end super k v h = refl
is_subset-put (field j w sub) super k v h =
    let other : (k == j) ≡ false = ground (arith, eq_iff k j, eq_iff j k) in
    let absent : contains k (keys_of sub) ≡ false = ground arith in
    let same : get j (put k v super) ≡ get j super = get-put j k v super ∙ rw other refl in
    ap (λ o. first_field o w (is_subset sub (put k v super))) same
    ∙ ap (first_field (get j super) w) (is_subset-put sub super k v absent)

put_all-absent :
    (inc combo : Fields) (k : String)
    → contains k (keys_of inc) ≡ false
    → get k (put_all inc combo) ≡ get k combo
unfolding put_all
put_all-absent end combo k h = refl
put_all-absent (field j v inc) combo k h =
    let other : (j == k) ≡ false = ground arith in
    let absent : contains k (keys_of inc) ≡ false = ground arith in
    put_all-absent inc (put j v combo) k absent ∙ get-put k j v combo ∙ rw other refl

-- Where an include, whose keys are distinct, is a subset of a combination, its merge into the
-- combination changes nothing: at each key there is afterwards what was there, or an equal value.
pub put_all-SameAt :
    (inc combo : Fields) (k : String)
    → Distinct (keys_of inc)
    → is_subset inc combo ≡ some true
    → SameAt k combo (put_all inc combo)
unfolding put_all
put_all-SameAt end combo k d h = inl refl
put_all-SameAt (field j v inc) combo k d h =
    let (sv, held, equal, rest) = is_subset-field j v inc combo h in
    elim (Bool-cases (j == k)) [
      | inl e ↦
          let same : j ≡ k = ==→≡ j k e in
          let absent : contains k (keys_of inc) ≡ false = rw (← same) d.0 in
          inr (
            sv,
            v,
            rw (← same) held,
            put_all-absent inc (put j v combo) k absent ∙ get-put k j v combo ∙ rw e refl,
            equal,
          )
      | inr e ↦
          let still : is_subset inc (put j v combo) ≡ some true =
            is_subset-put inc combo j v d.0 ∙ rest in
          let unchanged : get k (put j v combo) ≡ get k combo = get-put k j v combo ∙ rw e refl in
          elim (put_all-SameAt inc (put j v combo) k d.1 still) [
            | inl s ↦ inl (s ∙ unchanged)
            | inr (x, y, before, after, eq) ↦ inr (x, y, sym unchanged ∙ before, after, eq)
          ]
    ]
