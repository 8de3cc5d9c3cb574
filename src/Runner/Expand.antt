-- ===== src/Runner/Expand.antt =====
-- internal/runner/runner.go: expandTests, which makes the tests that run of the matrix and the cases of each
-- test. interpolateTest goes through YAML and the interpolation of ${{ }}: it is the parameter `interpolate`.
pub mod Listed
pub mod Samples
use Prim.Native.Char.{code}
use vigie.Prelude.{
  String, ℕ, Bool, true, false, ◌&&◌, Option, none, some, List, [], ◌∷◌, ◌++◌, ◌==◌, if◌then◌else◌,
  ltb,
}
use vigie.Prelude.Texts.{append}
use vigie.Value.{Value, null, str, object, Fields, end, field, get, put}
use vigie.Dsl.Suite.{Test, Inputs}
use vigie.Matrix
use vigie.Matrix.{MatrixError, Expanded, put_all}
use vigie.Matrix.Cases
use vigie.Matrix.Cases.{Case, CaseError}

-- %v of a value, and interpolateTest: an error's text, or the test.
pub record Templating : Type 0 where
  pub print_value : Value → String
  pub interpolate : Test → (bindings : Fields) → String × Option Test

-- expandedTest
pub record Expansion : Type 0 where
  pub test : Test
  pub matrix_entry : Option Fields
  pub case_entry : Option Fields
  pub display_name : String

pub data ExpandError : Type 0 where
  matrix_refused : (it : String) → MatrixError → ExpandError
  matrix_not_interpolated : (it text : String) → ExpandError
  cases_refused : (it : String) → CaseError → ExpandError
  case_not_interpolated : (it name text : String) → ExpandError

-- A panic is that of == on two lists or maps in a matrix.
pub data Outcome {ℓ} (A : Type ℓ) : Type ℓ where
  ok : A → Outcome A
  err : ExpandError → Outcome A
  panicked : Outcome A

-- The order of sort.Strings: that of the bytes is that of the code points.
unfoldable pub text_le : String → String → Bool
text_le String.[] t = true
text_le (String.◌∷◌ c s) String.[] = false
text_le (String.◌∷◌ c s) (String.◌∷◌ d t) =
    let rest = text_le s t in
    if ltb (code c) (code d) then true else if ltb (code d) (code c) then false else rest

unfoldable pub insert_text : String → List String → List String
unfolding text_le
insert_text s [] = s ∷ []
insert_text s (t ∷ ts) = let rest = insert_text s ts in if text_le s t then s ∷ t ∷ ts else t ∷ rest

unfoldable pub sort_texts : List String → List String
unfolding insert_text
sort_texts [] = []
sort_texts (s ∷ ts) = insert_text s (sort_texts ts)

abbrev pub entry_keys : Fields → List String
entry_keys end = []
entry_keys (field k v m) = k ∷ entry_keys m

-- entry[k]: nil where the key is missing.
abbrev pub entry_at : String → Fields → Value
unfolding get
entry_at k m = elim (get k m) [ none ↦ null | some v ↦ v ]

-- strings.Join(parts, ", ")
abbrev pub join_parts : List String → String
join_parts [] = ""
join_parts (p ∷ []) = p
join_parts (p ∷ q ∷ ps) = append p (append ", " (join_parts (q ∷ ps)))

abbrev pub bracketed : (it inner : String) → String
bracketed it inner = append it (append " [" (append inner "]"))

abbrev no_inputs : Inputs
no_inputs = record {
  set = none;
  set_json = end;
  set_literal = [];
  values = [];
  release = none;
  capabilities = none;
}

-- interpolated.Inputs, and its Set, made where they are nil.
abbrev pub inputs_of : Option Inputs → Inputs
inputs_of none = no_inputs
inputs_of (some i) = i

abbrev pub fields_of : Option Fields → Fields
fields_of none = end
fields_of (some m) = m

-- The merge of case.Set.
unfoldable pub with_set : Option Fields → Test → Test
unfolding put_all
with_set none t = t
with_set (some set) t = record t {
  inputs = some (record (inputs_of t.inputs) {
    set = some (put_all set (fields_of (inputs_of t.inputs).set));
  });
}

-- c.Set as a value: a nil map of this type is a nil map in the any.
abbrev pub set_value : Option Fields → Value
set_value none = object end
set_value (some m) = object m

-- Extra, with the name and the set: neither is a key of Extra.
unfoldable pub case_entry_of : Case → Fields
unfolding put
case_entry_of c = put "set" (set_value c.set) (put "name" (str c.name) c.extra)

module _ (t : Templating) where
  abbrev pub formatted_parts : Fields → List String → List String
  formatted_parts entry [] = []
  formatted_parts entry (k ∷ keys) =
      append k (append "=" (t.print_value (entry_at k entry))) ∷ formatted_parts entry keys

  unfoldable pub format_entry : Fields → String
  unfolding sort_texts
  format_entry entry = join_parts (formatted_parts entry (sort_texts (entry_keys entry)))

  abbrev pub matrix_expansion : Test → (entry : Fields) → String × Option Test → Outcome Expansion
  unfolding format_entry
  matrix_expansion test entry (text, none) = err (matrix_not_interpolated test.it text)
  matrix_expansion test entry (text, some interpolated) = ok (record {
    test = interpolated;
    matrix_entry = some entry;
    case_entry = none;
    display_name = bracketed test.it (format_entry entry);
  })

  abbrev pub case_expansion : Test → Case → String × Option Test → Outcome Expansion
  unfolding with_set case_entry_of
  case_expansion test c (text, none) = err (case_not_interpolated test.it c.name text)
  case_expansion test c (text, some interpolated) = ok (record {
    test = with_set c.set interpolated;
    matrix_entry = none;
    case_entry = some (case_entry_of c);
    display_name = bracketed test.it c.name;
  })

  abbrev pub expand_entry : Test → Fields → Outcome Expansion
  unfolding matrix_expansion
  expand_entry test entry =
      matrix_expansion test entry (t.interpolate test (field "matrix" (object entry) end))

  abbrev pub expand_case : Test → Case → Outcome Expansion
  unfolding case_expansion
  expand_case test c =
      case_expansion test c (t.interpolate test (field "case" (object (case_entry_of c)) end))

-- One round that appends to `out`, and the rounds after it.
abbrev pub and_more {ℓ} : {A : Type ℓ} → Outcome A → Outcome (List A) → Outcome (List A)
and_more (ok a) (ok xs) = ok (a ∷ xs)
and_more (ok a) (err e) = err e
and_more (ok a) panicked = panicked
and_more (err e) rest = err e
and_more panicked rest = panicked

-- The loop over the entries of one test.
abbrev pub each {ℓ} : {A : Type ℓ} → (A → Outcome Expansion) → List A → Outcome (List Expansion)
each f [] = ok []
each f (x ∷ xs) = and_more (f x) (each f xs)

-- One test, and the tests after it.
abbrev pub and_tests :
    Outcome (List Expansion) → Outcome (List Expansion) → Outcome (List Expansion)
and_tests (ok xs) (ok ys) = ok (xs ++ ys)
and_tests (ok xs) (err e) = err e
and_tests (ok xs) panicked = panicked
and_tests (err e) rest = err e
and_tests panicked rest = panicked

module _ (t : Templating) where
  abbrev pub expand_matrix : Test → Expanded → Outcome (List Expansion)
  unfolding expand_entry
  expand_matrix test (Expanded.ok entries) = each (expand_entry t test) entries
  expand_matrix test (Expanded.err e) = err (matrix_refused test.it e)
  expand_matrix test Expanded.panic = panicked

  abbrev pub expand_case_list : Test → Cases.Result (List Case) → Outcome (List Expansion)
  unfolding expand_case
  expand_case_list test (Cases.ok cases) = each (expand_case t test) cases
  expand_case_list test (Cases.err e) = err (cases_refused test.it e)

  -- The switch of expandTests.
  abbrev pub expand_switch :
      Test → (matrix : Option Fields) → (cases : List Fields) → Outcome (List Expansion)
  unfolding expand_matrix expand_case_list
  expand_switch test (some raw) cases = expand_matrix test (Matrix.expand raw)
  expand_switch test none (c ∷ cases) = expand_case_list test (Cases.expand_cases (c ∷ cases))
  expand_switch test none [] =
      ok (
        record { test = test; matrix_entry = none; case_entry = none; display_name = test.it } ∷ [])

  unfoldable pub expand_tests : List Test → Outcome (List Expansion)
  unfolding expand_switch
  expand_tests [] = ok []
  expand_tests (test ∷ tests) =
      and_tests (expand_switch test test.matrix test.cases) (expand_tests tests)
