-- ===== src/Matchers/Registry/Registration.antt =====
-- internal/matchers/registry.go: registrations one after the other.
use vigie.Prelude.{
  String, ◌≡◌, refl, sym, ap, subst, true, false, some, List, [], ◌∷◌, ◌++◌, contains, append-nil,
  append_assoc, Bool-cases, inl, inr, ◌↔◌, arith, contains-append, eq_iff,
}
use vigie.Prelude.Counting.{Distinct}
use vigie.Matchers.Registry.{Matcher, name_of, registered_names, register, register_all}

names-append :
    (xs ys : List Matcher)
    → registered_names (xs ++ ys) ≡ registered_names xs ++ registered_names ys
names-append [] ys = refl
names-append (x ∷ xs) ys = ap (λ l. name_of x ∷ l) (names-append xs ys)

clash : (x : String) (xs ys : List String) → contains x xs ≡ true → Distinct (xs ++ x ∷ ys) → ⊥
clash x [] ys h d = cc
clash x (y ∷ xs) ys h d = elim (Bool-cases (contains x xs)) [
  | inl e ↦ clash x xs ys e d.1
  | inr e ↦
      let here : contains y (xs ++ x ∷ ys) ≡ true =
        ground (arith, contains-append y xs (x ∷ ys), eq_iff y x, eq_iff x y) in
      let bad = d.0 in cc
]

Distinct-snoc :
    (xs : List String) (x : String) → Distinct xs → contains x xs ≡ false → Distinct (xs ++ x ∷ [])
Distinct-snoc [] x d h = (refl, tt)
Distinct-snoc (y ∷ xs) x d h = (
  ground (arith, contains-append y xs (x ∷ []), eq_iff x y, eq_iff y x),
  Distinct-snoc xs x d.1 (ground arith),
)

-- Registering matchers one after the other into a registry of distinct names ends without the panic,
-- with the matchers behind those that were there, exactly when all names are distinct.
pub register_all-Distinct :
    (before ms : List Matcher)
    → Distinct (registered_names before)
    → (register_all before ms ≡ some (before ++ ms)) ↔ Distinct (registered_names (before ++ ms))
unfolding register_all register
register_all-Distinct before [] h = rw (append-nil before) (λ e. h, λ d. refl)
register_all-Distinct before (m ∷ ms) h =
    elim (Bool-cases (contains (name_of m) (registered_names before))) [
      | inl e ↦
          rw (e, register_all, register)
            (
              λ k. cc,
              λ d.
                  elim (clash (name_of m) (registered_names before) (registered_names ms) e
                    (subst Distinct (names-append before (m ∷ ms)) d)) [ ],
            )
      | inr e ↦
          let so_far =
            subst Distinct (sym (names-append before (m ∷ [])))
              (Distinct-snoc (registered_names before) (name_of m) h e) in
          let ih = register_all-Distinct (before ++ m ∷ []) ms so_far in
          rw (e, register_all, register, ← append_assoc before (m ∷ []) ms) ih
    ]
