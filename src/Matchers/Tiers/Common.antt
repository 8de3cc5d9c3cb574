-- ===== src/Matchers/Tiers/Common.antt =====
-- internal/matchers/tiers.go: the tiers that the children of a composite have in common.
use vigie.Prelude.{
  String, ◌≡◌, refl, sym, ◌∙◌, Bool, true, false, ◌&&◌, &&-true, none, some, List, [], ◌∷◌, ◌==◌,
  contains, Bool-cases, Option-cases, inl, inr, ==→≡, ◌↔◌,
}
use vigie.Dsl.Assertion.{Assertion, Assertions, nil, cons}
use vigie.Matchers.Tiers.{
  intersect_tiers, supported_tiers_for, intersect_child_tiers, intersect_rest,
}

pub contains-intersect_tiers :
    (t : String) (xs ys : List String)
    → contains t (intersect_tiers xs ys) ≡ (contains t xs && contains t ys)
unfolding intersect_tiers
contains-intersect_tiers t [] ys = refl
contains-intersect_tiers t (x ∷ xs) ys = elim (Bool-cases (x == t)) [
  | inl same ↦
      let equal : x ≡ t = ==→≡ x t same in
      elim (Bool-cases (contains x ys)) [
        | inl e ↦ let e' : contains t ys ≡ true = rw (← equal) e in rw (e, e', same) refl
        | inr e ↦
            let e' : contains t ys ≡ false = rw (← equal) e in
            rw e (contains-intersect_tiers t xs ys ∙ rw (e', same) (none_left (contains t xs)))
      ]
  | inr other ↦ elim (Bool-cases (contains x ys)) [
    | inl e ↦ rw (e, other) (contains-intersect_tiers t xs ys)
    | inr e ↦ rw (e, other) (contains-intersect_tiers t xs ys)
  ]
]
  where
    none_left : (b : Bool) → (b && false) ≡ false
    none_left true = refl
    none_left false = refl

-- Each child can run at the tier.
abbrev pub RunsAt : String → Assertions → Type 0
RunsAt t nil = Unit
RunsAt t (cons child rest) =
    ((tiers : List String) × (supported_tiers_for child ≡ some tiers) × (contains t tiers ≡ true))
    × RunsAt t rest

rest-RunsAt :
    (t : String) (rest : Assertions) (result tiers : List String)
    → intersect_rest rest result ≡ some tiers
    → (contains t tiers ≡ true) ↔ (contains t result ≡ true) × RunsAt t rest
unfolding supported_tiers_for
rest-RunsAt t nil result tiers h =
    let same : result ≡ tiers = cc in rw same (λ m. (m, tt), λ m. m.0)
rest-RunsAt t (cons child rest) result tiers h = elim (Option-cases (supported_tiers_for child)) [
  | inl e ↦ let bad : none ≡ some tiers = rw e at h in cc
  | inr (more, e) ↦
      let ih = rest-RunsAt t rest (intersect_tiers result more) tiers (rw e at h) in
      let both = contains-intersect_tiers t result more in
      (
        λ m.
            let (k, u) = ih.0 m in
            let (l, r) = &&-true (contains t result) (contains t more) (sym both ∙ k) in
            (l, ((more, e, r), u)),
        λ (l, ((ts, e', r), u)).
            let same : more ≡ ts = cc in
            let r' : contains t more ≡ true = rw same r in ih.1 (both ∙ rw (l, r') refl, u),
      )
]

-- A composite that has a child runs at a tier exactly when each child does.
pub intersect_child_tiers-RunsAt :
    (t : String) (child : Assertion) (rest : Assertions) (tiers : List String)
    → intersect_child_tiers (cons child rest) ≡ some tiers
    → (contains t tiers ≡ true) ↔ RunsAt t (cons child rest)
unfolding supported_tiers_for
intersect_child_tiers-RunsAt t child rest tiers h =
    elim (Option-cases (supported_tiers_for child)) [
      | inl e ↦ let bad : none ≡ some tiers = rw e at h in cc
      | inr (first, e) ↦
          let ih = rest-RunsAt t rest first tiers (rw e at h) in
          (
            λ m. let (l, u) = ih.0 m in ((first, e, l), u),
            λ ((ts, e', l), u). let same : first ≡ ts = cc in ih.1 (rw same l, u),
          )
    ]
