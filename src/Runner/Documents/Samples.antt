-- ===== src/Runner/Documents/Samples.antt =====
-- internal/runner: the documents and the assertions of a small test.
use vigie.Prelude.{String, ◌≡◌, refl, false, Option, none, some, List, [], ◌∷◌}
use vigie.Prelude.Int.{ℤ, pos}
use vigie.Value.{Value, str, end, field}
use vigie.Dsl.Assertion.{TargetSpec, Assertion, assertion, nil, no_lookup, no_leaves}
use vigie.Runner.Documents.{Doc, Printer, selected, select_doc}
use vigie.Runner.Documents.Selected.{IsTargetOf, IsSelectedBy, select_doc-IsSelectedBy}

abbrev pub doc : (kind : String) → Doc
doc kind = field "kind" (str kind) end

abbrev pub docs : List Doc
docs = doc "Service" ∷ doc "Deployment" ∷ []

abbrev print_value : Value → String
print_value (str s) = s
print_value v = "<nil>"

abbrev pub printer : Printer
printer = record { print_value = print_value; eval_cel = λ expr d. none }

abbrev target : Option ℤ → TargetSpec
target index = record {
  kind = "Deployment";
  name = "";
  namespace = "";
  api_version = "";
  labels = [];
  document_index = index;
  expr = "";
}

abbrev pub check : Assertion
check = assertion false none no_leaves nil nil no_lookup

select-kind : select_doc printer check (some (target none)) docs ≡ selected (doc "Deployment")
unfolding select_doc
select-kind = refl

-- The kind is not looked at where there is an index.
select-index :
    select_doc printer check (some (target (some (pos 0)))) docs ≡ selected (doc "Service")
unfolding select_doc
select-index = refl

-- The target of the assertion goes before the index that the test has.
abbrev aimed : Assertion
aimed = assertion false (some (target none)) no_leaves nil nil no_lookup

select-own :
    select_doc printer aimed (some (target (some (pos 0)))) docs ≡ selected (doc "Deployment")
unfolding select_doc
select-own = refl

select_doc-IsSelectedBy_example :
    (effective : Option TargetSpec) × IsTargetOf aimed (some (target (some (pos 0)))) effective
    × IsSelectedBy printer effective docs (doc "Deployment")
select_doc-IsSelectedBy_example =
    select_doc-IsSelectedBy printer aimed (some (target (some (pos 0)))) docs (doc "Deployment")
      select-own
