-- ===== src/Matrix/Cases.antt =====
-- internal/matrix/cases.go: the entries of a test's `cases`.
use vigie.Prelude.{
  ==→≡, ◌∙◌, String, ℕ, suc, ◌≡◌, refl, ap, Bool, true, false, ◌||◌, Option, none, some, List, [],
  ◌∷◌, ◌==◌, if◌then◌else◌, inl, inr, Bool-cases,
}
use vigie.Value.{Value, null, bool, int, float, slice, str, object, Fields, end, field, get}

-- A nil map is `none`.
pub record Case : Type 0 where
  pub name : String
  pub set : Option Fields
  pub extra : Fields

pub data CaseError : Type 0 where
  missing_name : (index : ℕ) → CaseError
  name_not_string : (index : ℕ) → CaseError
  name_empty : (index : ℕ) → CaseError
  set_not_map : (index : ℕ) → (name : String) → CaseError

pub data Result (A : Type 0) : Type 0 where
  ok : A → Result A
  err : CaseError → Result A

-- The required name of an entry.
unfoldable pub name_at : ℕ → Fields → Result String
unfolding get
name_at index entry = elim (get "name" entry) [
  | none ↦ err (missing_name index)
  | some (str name) ↦ if name == "" then err (name_empty index) else ok name
  | some _ ↦ err (name_not_string index)
]

-- The optional set of an entry.
unfoldable pub set_at : ℕ → (name : String) → Fields → Result (Option Fields)
unfolding get
set_at index name entry = elim (get "set" entry) [
  | none ↦ ok none
  | some (object m) ↦ ok (some m)
  | some _ ↦ err (set_not_map index name)
]

abbrev pub is_special : String → Bool
is_special k = k == "name" || k == "set"

-- All other keys.
unfoldable pub extra_of : Fields → Fields
extra_of end = end
extra_of (field k v entry) =
    let rest = extra_of entry in if is_special k then rest else field k v rest

-- One round of the loop.
unfoldable pub case_at : ℕ → Fields → Result Case
unfolding name_at set_at extra_of
case_at index entry = elim (name_at index entry) [
  | err e ↦ err e
  | ok name ↦ elim (set_at index name entry) [
    | err e ↦ err e
    | ok set ↦ ok (record { name = name; set = set; extra = extra_of entry })
  ]
]

unfoldable pub cases_from : ℕ → List Fields → Result (List Case)
unfolding case_at
cases_from index [] = ok []
cases_from index (entry ∷ raw) =
    let rest = cases_from (suc index) raw in
    elim (case_at index entry) [
      | err e ↦ err e
      | ok c ↦ elim rest [ err e ↦ err e | ok cases ↦ ok (c ∷ cases) ]
    ]

-- ExpandCases
unfoldable pub expand_cases : List Fields → Result (List Case)
unfolding cases_from
expand_cases raw = cases_from 0 raw

-- What a case is of its entry: every key is found where it belongs.
abbrev pub IsCaseOf : Fields → Case → Type 0
IsCaseOf entry c =
    (get "name" entry ≡ some (str c.name))
    × ((c.name == "") ≡ false)
    × (elim c.set [ none ↦ none | some m ↦ some (object m) ] ≡ get "set" entry)
    × ((k : String) → get k c.extra ≡ (if is_special k then none else get k entry))

abbrev pub AllCases : List Fields → List Case → Type 0
AllCases [] [] = Unit
AllCases (entry ∷ raw) (c ∷ cases) = IsCaseOf entry c × AllCases raw cases
AllCases _ _ = ⊥

-- The step of the lemma below: an entry of its own key, or of another.
skip_entry :
    (sj sk here : Bool) (x y : Option Value)
    → (here ≡ true → sj ≡ sk)
    → (if sj then (if sk then none else y) else (if here then x else (if sk then none else y)))
      ≡ (if sk then none else (if here then x else y))
skip_entry true true here x y h = refl
skip_entry true false true x y h = let bad = h refl in cc
skip_entry true false false x y h = refl
skip_entry false true true x y h = let bad = h refl in cc
skip_entry false true false x y h = refl
skip_entry false false here x y h = refl

get-kept :
    (k j : String) (b : Bool) (v : Value) (rest : Fields)
    → get k (if b then rest else field j v rest)
      ≡ (if b then get k rest else (if j == k then some v else get k rest))
unfolding get
get-kept k j true v rest = refl
get-kept k j false v rest = refl

nothing : (b : Bool) → ◌≡◌ {A = Option Value} none (if b then none else none)
nothing true = refl
nothing false = refl

get-extra_of :
    (k : String) (entry : Fields)
    → get k (extra_of entry) ≡ (if is_special k then none else get k entry)
unfolding get extra_of
get-extra_of k end = nothing (is_special k)
get-extra_of k (field j v entry) =
    get-kept k j (is_special j) v (extra_of entry)
    ∙ ap (λ o. if is_special j then o else (if j == k then some v else o)) (get-extra_of k entry)
    ∙ skip_entry (is_special j) (is_special k) (j == k) (some v) (get k entry)
        (λ e. ap is_special (==→≡ j k e))

name_at-ok :
    (index : ℕ) (entry : Fields) (name : String)
    → name_at index entry ≡ ok name
    → (get "name" entry ≡ some (str name)) × ((name == "") ≡ false)
unfolding name_at
name_at-ok index entry name h = go (get "name" entry) refl
  where
    go :
        (held : Option Value)
        → get "name" entry ≡ held
        → (get "name" entry ≡ some (str name)) × ((name == "") ≡ false)
    go none e = let bad : err (missing_name index) ≡ ok name = rw (e, name_at) at h in cc
    go (some (str s)) e = elim (Bool-cases (s == "")) [
      | inl k ↦ let bad : err (name_empty index) ≡ ok name = rw (e, k, name_at) at h in cc
      | inr k ↦
          let good : ok s ≡ ok name = rw (e, k, name_at) at h in
          let same : s ≡ name = cc in rw (← same) (e, k)
    ]
    go (some null) e = let bad : err (name_not_string index) ≡ ok name = rw (e, name_at) at h in cc
    go (some (bool b)) e =
        let bad : err (name_not_string index) ≡ ok name = rw (e, name_at) at h in cc
    go (some (int n)) e =
        let bad : err (name_not_string index) ≡ ok name = rw (e, name_at) at h in cc
    go (some (float n)) e =
        let bad : err (name_not_string index) ≡ ok name = rw (e, name_at) at h in cc
    go (some (slice n)) e =
        let bad : err (name_not_string index) ≡ ok name = rw (e, name_at) at h in cc
    go (some (object n)) e =
        let bad : err (name_not_string index) ≡ ok name = rw (e, name_at) at h in cc

set_at-ok :
    (index : ℕ) (name : String) (entry : Fields) (set : Option Fields)
    → set_at index name entry ≡ ok set
    → elim set [ none ↦ none | some m ↦ some (object m) ] ≡ get "set" entry
unfolding set_at
set_at-ok index name entry set h = go (get "set" entry) refl
  where
    go :
        (held : Option Value)
        → get "set" entry ≡ held
        → elim set [ none ↦ none | some m ↦ some (object m) ] ≡ get "set" entry
    go none e =
        let good : ok none ≡ ok set = rw (e, set_at) at h in
        let same : none ≡ set = cc in rw (e, ← same) refl
    go (some (object m)) e =
        let good : ok (some m) ≡ ok set = rw (e, set_at) at h in
        let same : some m ≡ set = cc in rw (e, ← same) refl
    go (some (str s)) e =
        let bad : err (set_not_map index name) ≡ ok set = rw (e, set_at) at h in cc
    go (some null) e = let bad : err (set_not_map index name) ≡ ok set = rw (e, set_at) at h in cc
    go (some (bool b)) e =
        let bad : err (set_not_map index name) ≡ ok set = rw (e, set_at) at h in cc
    go (some (int n)) e =
        let bad : err (set_not_map index name) ≡ ok set = rw (e, set_at) at h in cc
    go (some (float n)) e =
        let bad : err (set_not_map index name) ≡ ok set = rw (e, set_at) at h in cc
    go (some (slice n)) e =
        let bad : err (set_not_map index name) ≡ ok set = rw (e, set_at) at h in cc

-- What a read of two parts that succeeded went through.
case_at-ok : (index : ℕ) (entry : Fields) (c : Case) → case_at index entry ≡ ok c → IsCaseOf entry c
unfolding case_at
case_at-ok index entry c h = go (name_at index entry) refl
  where
    go : (r : Result String) → name_at index entry ≡ r → IsCaseOf entry c
    go (err e) k = let bad : err e ≡ ok c = rw (k, case_at) at h in cc
    go (ok name) k = named name k (set_at index name entry) refl
      where
        named :
            (name : String)
            → name_at index entry ≡ ok name
            → (r : Result (Option Fields)) → set_at index name entry ≡ r
            → IsCaseOf entry c
        named name k (err e) l = let bad : err e ≡ ok c = rw (k, l, case_at) at h in cc
        named name k (ok set) l =
            let good : ok (record { name = name; set = set; extra = extra_of entry }) ≡ ok c =
              rw (k, l, case_at) at h in
            let same : record { name = name; set = set; extra = extra_of entry } ≡ c = cc in
            let (has, filled) = name_at-ok index entry name k in
            rw (← same) (has, filled, set_at-ok index name entry set l, λ j. get-extra_of j entry)

cases_from-ok :
    (index : ℕ) (raw : List Fields) (cases : List Case)
    → cases_from index raw ≡ ok cases
    → AllCases raw cases
unfolding cases_from
cases_from-ok index [] cases h = let good : [] ≡ cases = cc in rw (← good) tt
cases_from-ok index (entry ∷ raw) cases h =
    go (case_at index entry) refl (cases_from (suc index) raw) refl (cases_from-ok (suc index) raw)
  where
    go :
        (first : Result Case)
        → case_at index entry ≡ first
        → (rest : Result (List Case)) → cases_from (suc index) raw ≡ rest
        → ((more : List Case) → cases_from (suc index) raw ≡ ok more → AllCases raw more)
        → AllCases (entry ∷ raw) cases
    go (err e) k rest l ih = let bad : err e ≡ ok cases = rw (k, cases_from) at h in cc
    go (ok c) k (err e) l ih = let bad : err e ≡ ok cases = rw (k, l, cases_from) at h in cc
    go (ok c) k (ok more) l ih =
        let good : ok (c ∷ more) ≡ ok cases = rw (k, l, cases_from) at h in
        let same : c ∷ more ≡ cases = cc in rw (← same) (case_at-ok index entry c k, ih more l)

-- Where ExpandCases succeeds, it returns one case for each entry, in order: the case has the entry's
-- name, which is not empty, and its set, and finds every other key of the entry, and no more, in extra.
pub expand_cases_lem :
    (raw : List Fields) (cases : List Case) → expand_cases raw ≡ ok cases → AllCases raw cases
unfolding expand_cases
expand_cases_lem raw cases h = cases_from-ok 0 raw cases h
