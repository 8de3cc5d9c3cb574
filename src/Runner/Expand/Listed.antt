-- ===== src/Runner/Expand/Listed.antt =====
-- internal/runner/runner.go: the tests that expandTests makes.
use vigie.Prelude.{
  String, ◌≡◌, ◌≢◌, refl, sym, ap, ◌∙◌, subst, false, Option, none, some, List, [], ◌∷◌, ◌++◌, ◌==◌,
  if◌then◌else◌, arith, eq_iff,
}
use vigie.Value.{Value, str, object, Fields, end, field, get, put}
use vigie.Dsl.Suite.{Test}
use vigie.Matrix
use vigie.Matrix.{Expanded, put_all}
use vigie.Matrix.Combos.{get-put}
use vigie.Matrix.Cases
use vigie.Matrix.Cases.{Case, is_special}
use vigie.Runner.Expand.{
  Templating, Expansion, Outcome, ok, err, panicked, bracketed, inputs_of, fields_of, with_set,
  set_value, case_entry_of, format_entry, matrix_expansion, case_expansion, expand_entry,
  expand_case, and_more, each, and_tests, expand_matrix, expand_case_list, expand_switch,
  expand_tests,
}

-- What the last entry of a key has.
abbrev pub last_value : String → Fields → (otherwise : Option Value) → Option Value
last_value k end otherwise = otherwise
last_value k (field j v m) otherwise = last_value k m (if j == k then some v else otherwise)

get-put_all :
    (k : String) (changes m : Fields) → get k (put_all changes m) ≡ last_value k changes (get k m)
unfolding put_all
get-put_all k end m = refl
get-put_all k (field j v changes) m =
    get-put_all k changes (put j v m) ∙ ap (last_value k changes) (get-put k j v m)

-- inputs.set of a test: empty where there is none.
abbrev pub set_of : Test → Fields
set_of test = fields_of (inputs_of test.inputs).set

abbrev pub changes_of : Option Fields → Fields
changes_of none = end
changes_of (some m) = m

get-with_set :
    (k : String) (set : Option Fields) (test : Test)
    → get k (set_of (with_set set test)) ≡ last_value k (changes_of set) (get k (set_of test))
unfolding with_set
get-with_set k none test = refl
get-with_set k (some m) test = get-put_all k m (set_of test)

with_set_elsewhere :
    (set : Option Fields) (test : Test)
    → with_set set test ≡ record test { inputs = (with_set set test).inputs }
unfolding with_set
with_set_elsewhere none test = refl
with_set_elsewhere (some m) test = refl

-- The lists have the same length, and their items are related in pairs.
abbrev pub Pairs {ℓ κ} : {A : Type ℓ} {B : Type κ} → (A → B → Type 0) → List A → List B → Type 0
Pairs R [] [] = Unit
Pairs R (a ∷ xs) (b ∷ ys) = R a b × Pairs R xs ys
Pairs R _ _ = ⊥

abbrev value_of {ℓ} : {A : Type ℓ} → A → Outcome A → A
value_of a (ok b) = b
value_of a (err e) = a
value_of a panicked = a

ok_path {ℓ} : {A : Type ℓ} {a b : A} → ok a ≡ ok b → a ≡ b
ok_path {a = a} h = ap (value_of a) h

and_more-ok {ℓ} :
    {A : Type ℓ} (r : Outcome A) (rest : Outcome (List A)) (out : List A)
    → and_more r rest ≡ ok out
    → (a : A) × (more : List A) × (r ≡ ok a) × (rest ≡ ok more) × (a ∷ more ≡ out)
and_more-ok (ok a) (ok more) out h = (a, more, refl, refl, ok_path h)
and_more-ok (ok a) (err e) out h = cc
and_more-ok (ok a) panicked out h = cc
and_more-ok (err e) rest out h = cc
and_more-ok panicked rest out h = cc

and_tests-ok :
    (r rest : Outcome (List Expansion)) (out : List Expansion)
    → and_tests r rest ≡ ok out
    → (xs ys : List Expansion) × (r ≡ ok xs) × (rest ≡ ok ys) × (xs ++ ys ≡ out)
and_tests-ok (ok xs) (ok ys) out h = (xs, ys, refl, refl, ok_path h)
and_tests-ok (ok xs) (err e) out h = cc
and_tests-ok (ok xs) panicked out h = cc
and_tests-ok (err e) rest out h = cc
and_tests-ok panicked rest out h = cc

each-ok {ℓ} :
    {A : Type ℓ} (R : A → Expansion → Type 0) (f : A → Outcome Expansion)
    → ((a : A) (x : Expansion) → f a ≡ ok x → R a x)
    → (items : List A) (xs : List Expansion) → each f items ≡ ok xs
    → Pairs R items xs
each-ok R f related [] [] h = tt
each-ok R f related [] (x ∷ xs) h = let bad = ok_path h in cc
each-ok R f related (a ∷ rest) xs h =
    let (x, more, one, others, same) = and_more-ok (f a) (each f rest) xs h in
    subst (Pairs R (a ∷ rest)) same (related a x one, each-ok R f related rest more others)

module _ (t : Templating) (test : Test) where
  -- The test of one matrix entry: the interpolated test, under a name with the entry.
  pub record IsOfEntry (entry : Fields) (x : Expansion) : Type 0 where
    pub interpolated : (t.interpolate test (field "matrix" (object entry) end)).1 ≡ some x.test
    pub kept_entry : x.matrix_entry ≡ some entry
    pub no_case : x.case_entry ≡ none
    pub display : x.display_name ≡ bracketed test.it (format_entry t entry)

  -- The test of one case: the interpolated test, in which the case's set is written over inputs.set, under a name
  -- with that of the case; the case's name, set and other keys are what CEL reads.
  pub record IsOfCase (c : Case) (x : Expansion) : Type 0 where
    pub before : Test
    pub entry : Fields
    pub interpolated : (t.interpolate test (field "case" (object entry) end)).1 ≡ some before
    pub set_wins :
        (k : String)
        → get k (set_of x.test) ≡ last_value k (changes_of c.set) (get k (set_of before))
    pub elsewhere : x.test ≡ record before { inputs = x.test.inputs }
    pub kept_entry : x.case_entry ≡ some entry
    pub no_matrix : x.matrix_entry ≡ none
    pub display : x.display_name ≡ bracketed test.it c.name
    pub entry_name : get "name" entry ≡ some (str c.name)
    pub entry_set : get "set" entry ≡ some (set_value c.set)
    pub entry_extra : (k : String) → is_special k ≡ false → get k entry ≡ get k c.extra

  pub data ExpandsTo (xs : List Expansion) : Type 0 where
    as_it_is :
        test.matrix ≡ none
        → test.cases ≡ []
        → xs
          ≡ record { test = test; matrix_entry = none; case_entry = none; display_name = test.it }
            ∷ []
        → ExpandsTo xs
    by_matrix :
        (raw : Fields) (entries : List Fields)
        → test.matrix ≡ some raw
        → Matrix.expand raw ≡ Expanded.ok entries
        → Pairs IsOfEntry entries xs
        → ExpandsTo xs
    by_cases :
        (cases : List Case)
        → test.matrix ≡ none
        → test.cases ≢ []
        → Cases.expand_cases test.cases ≡ Cases.ok cases
        → Pairs IsOfCase cases xs
        → ExpandsTo xs

  entry-IsOfEntry :
      (entry : Fields) (r : String × Option Test) (x : Expansion)
      → t.interpolate test (field "matrix" (object entry) end) ≡ r
      → matrix_expansion t test entry r ≡ ok x
      → IsOfEntry entry x
  unfolding matrix_expansion
  entry-IsOfEntry entry (text, none) x e h = cc
  entry-IsOfEntry entry (text, some interpolated) x e h =
      subst (IsOfEntry entry) (ok_path h) (record {
        interpolated = ap (λ r. r.1) e;
        kept_entry = refl;
        no_case = refl;
        display = refl;
      })

  get-case_entry_of :
      (k : String) (c : Case)
      → get k (case_entry_of c) ≡ (
          if "set" == k
          then some (set_value c.set)
          else (if "name" == k then some (str c.name) else get k c.extra))
  unfolding case_entry_of
  get-case_entry_of k c =
      get-put k "set" (set_value c.set) (put "name" (str c.name) c.extra)
      ∙ ap (λ o. if "set" == k then some (set_value c.set) else o)
          (get-put k "name" (str c.name) c.extra)

  extra-case_entry_of :
      (k : String) (c : Case) → is_special k ≡ false → get k (case_entry_of c) ≡ get k c.extra
  extra-case_entry_of k c h =
      get-case_entry_of k c
      ∙ ground (arith, eq_iff k "name", eq_iff k "set", eq_iff "name" k, eq_iff "set" k)

  case-IsOfCase :
      (c : Case) (r : String × Option Test) (x : Expansion)
      → t.interpolate test (field "case" (object (case_entry_of c)) end) ≡ r
      → case_expansion t test c r ≡ ok x
      → IsOfCase c x
  unfolding case_expansion
  case-IsOfCase c (text, none) x e h = cc
  case-IsOfCase c (text, some before) x e h = subst (IsOfCase c) (ok_path h) (record {
    before = before;
    entry = case_entry_of c;
    interpolated = ap (λ r. r.1) e;
    set_wins = λ k. get-with_set k c.set before;
    elsewhere = with_set_elsewhere c.set before;
    kept_entry = refl;
    no_matrix = refl;
    display = refl;
    entry_name = get-case_entry_of "name" c;
    entry_set = get-case_entry_of "set" c;
    entry_extra = λ k h. extra-case_entry_of k c h;
  })

  matrix-ExpandsTo :
      (raw : Fields) (r : Expanded) (xs : List Expansion)
      → test.matrix ≡ some raw
      → Matrix.expand raw ≡ r
      → expand_matrix t test r ≡ ok xs
      → ExpandsTo xs
  unfolding expand_matrix expand_entry
  matrix-ExpandsTo raw (Expanded.ok entries) xs m e h =
      by_matrix raw entries m e
        (each-ok IsOfEntry _ (λ entry x one. entry-IsOfEntry entry _ x refl one) entries xs h)
  matrix-ExpandsTo raw (Expanded.err x) xs m e h = cc
  matrix-ExpandsTo raw Expanded.panic xs m e h = cc

  cases-ExpandsTo :
      (r : Cases.Result (List Case)) (xs : List Expansion)
      → test.matrix ≡ none
      → test.cases ≢ []
      → Cases.expand_cases test.cases ≡ r
      → expand_case_list t test r ≡ ok xs
      → ExpandsTo xs
  unfolding expand_case_list expand_case
  cases-ExpandsTo (Cases.ok cases) xs m n e h =
      by_cases cases m n e (each-ok IsOfCase _ (λ c x one. case-IsOfCase c _ x refl one) cases xs h)
  cases-ExpandsTo (Cases.err x) xs m n e h = cc

  switch-ExpandsTo :
      (matrix : Option Fields) (cases : List Fields) (xs : List Expansion)
      → test.matrix ≡ matrix
      → test.cases ≡ cases
      → expand_switch t test matrix cases ≡ ok xs
      → ExpandsTo xs
  unfolding expand_switch
  switch-ExpandsTo (some raw) cases xs m e h = matrix-ExpandsTo raw _ xs m refl h
  switch-ExpandsTo none (c ∷ cases) xs m e h =
      cases-ExpandsTo (Cases.expand_cases (c ∷ cases)) xs m (λ n. let bad = sym e ∙ n in cc)
        (ap Cases.expand_cases e) h
  switch-ExpandsTo none [] xs m e h = as_it_is m e (sym (ok_path h))

-- The tests of a list, one group behind the other.
abbrev pub ExpandsAll : Templating → List Test → List Expansion → Type 0
ExpandsAll t [] out = out ≡ []
ExpandsAll t (test ∷ tests) out =
    (xs ys : List Expansion) × (out ≡ xs ++ ys) × ExpandsTo t test xs × ExpandsAll t tests ys

-- Where expandTests succeeds, it gives for each test, in the order of the tests: one test for each entry of its
-- matrix, if it has a matrix; else one for each of its cases, if it has cases, with the case's set written over
-- inputs.set; else the test itself.
pub expand_tests-ExpandsAll :
    (t : Templating) (tests : List Test) (out : List Expansion)
    → expand_tests t tests ≡ ok out
    → ExpandsAll t tests out
unfolding expand_tests
expand_tests-ExpandsAll t [] out h = sym (ok_path h)
expand_tests-ExpandsAll t (test ∷ tests) out h =
    let (xs, ys, one, others, same) =
      and_tests-ok (expand_switch t test test.matrix test.cases) (expand_tests t tests) out h in
    (
      xs,
      ys,
      sym same,
      switch-ExpandsTo t test test.matrix test.cases xs refl refl one,
      expand_tests-ExpandsAll t tests ys others,
    )
