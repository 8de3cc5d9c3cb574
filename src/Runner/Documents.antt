-- ===== src/Runner/Documents.antt =====
-- internal/runner/runner.go: the rendered document that an assertion is about. The text of a diagnostic
-- is a value with the parts that it names. `print_value` is the verb %v, and `eval_cel` the package of CEL.
pub mod Selected
pub mod Samples
use vigie.Prelude.{
  String, ℕ, zero, suc, Bool, true, false, ◌&&◌, ◌||◌, not, Option, none, some, List, [], ◌∷◌, ◌++◌,
  ◌==◌, length, if◌then◌else◌,
}
use vigie.Prelude.Int.{ℤ, pos, negsuc, leb_int}
use vigie.Value.{Value, null, bool, int, float, str, slice, object, Fields, end, field, get}
use vigie.Dsl.Assertion.{TargetSpec, Assertion, assertion, Assertions, nil, cons, leaves, is_set}

abbrev pub Doc : Type 0
Doc = Fields

-- The parts of the diagnostic: the kind and the name of each document that was rendered.
pub data Diagnostic : Type 0 where
  none_rendered : Diagnostic
  index_out_of_range : (idx : ℤ) (rendered : ℕ) → Diagnostic
  none_matched : (kind name : String) → List (String × String) → Diagnostic

-- What selectDoc returns: a document, no document and no diagnostic, or a diagnostic.
pub data Selection : Type 0 where
  selected : Doc → Selection
  no_document : Selection
  refused : Diagnostic → Selection
  -- an index below 0
  panicked : Selection

-- What the code calls: %v, and CEL, which answers with a value or with an error.
pub record Printer : Type 0 where
  pub print_value : Value → String
  pub eval_cel : (expr : String) → Doc → Option Value

-- m[k] of a Go map: nil where the key is missing.
unfoldable pub value_at : String → Fields → Value
unfolding get
value_at key m = elim (get key m) [ none ↦ null | some v ↦ v ]

-- doc["metadata"].(map[string]any)
abbrev pub as_map : Value → Option Fields
as_map (object m) = some m
as_map v = none

abbrev pub meta_text : Printer → String → Option Fields → String
unfolding value_at
meta_text p key none = ""
meta_text p key (some meta) = p.print_value (value_at key meta)

unfoldable pub has_labels : Printer → List (String × String) → Fields → Bool
unfolding value_at
has_labels p [] labels = true
has_labels p ((k, v) ∷ rest) labels =
    p.print_value (value_at k labels) == v && has_labels p rest labels

abbrev labels_in : Printer → List (String × String) → Option Fields → Bool
unfolding has_labels
labels_in p wanted none = false
labels_in p wanted (some labels) = has_labels p wanted labels

abbrev labels_of : Printer → List (String × String) → Option Fields → Bool
unfolding labels_in value_at
labels_of p wanted none = false
labels_of p wanted (some meta) = labels_in p wanted (as_map (value_at "labels" meta))

-- len(target.Labels) > 0
abbrev pub match_labels : Printer → List (String × String) → Option Fields → Bool
unfolding labels_of
match_labels p [] meta = true
match_labels p (kv ∷ rest) meta = labels_of p (kv ∷ rest) meta

abbrev pub is_true : Option Value → Bool
is_true (some (bool b)) = b
is_true v = false

unfoldable pub matches_target : Printer → Doc → TargetSpec → Bool
unfolding value_at match_labels meta_text
matches_target p doc target =
    let meta = as_map (value_at "metadata" doc) in
    if not (target.expr == "")
    then is_true (p.eval_cel target.expr doc)
    else (target.kind == "" || p.print_value (value_at "kind" doc) == target.kind)
      && ((target.api_version == ""
            || p.print_value (value_at "apiVersion" doc) == target.api_version)
          && ((target.name == "" || meta_text p "name" meta == target.name)
              && ((target.namespace == "" || meta_text p "namespace" meta == target.namespace)
                  && match_labels p target.labels meta)))

unfoldable pub matching_docs : Printer → TargetSpec → List Doc → List Doc
unfolding matches_target
matching_docs p target [] = []
matching_docs p target (doc ∷ docs) =
    let rest = matching_docs p target docs in
    if matches_target p doc target then doc ∷ rest else rest

unfoldable pub select_all_docs : Printer → Option TargetSpec → List Doc → List Doc
unfolding matching_docs
select_all_docs p none docs = docs
select_all_docs p (some target) docs = matching_docs p target docs

unfoldable pub describe_docs : Printer → List Doc → List (String × String)
unfolding value_at meta_text
describe_docs p [] = []
describe_docs p (doc ∷ docs) =
    (p.print_value (value_at "kind" doc), meta_text p "name" (as_map (value_at "metadata" doc)))
    ∷ describe_docs p docs

unfoldable pub build_target_diagnostic : Printer → Option TargetSpec → List Doc → Diagnostic
unfolding describe_docs
build_target_diagnostic p none docs = none_rendered
build_target_diagnostic p (some target) docs =
    none_matched target.kind target.name (describe_docs p docs)

unfoldable pub nth_doc : ℕ → List Doc → Option Doc
nth_doc n [] = none
nth_doc zero (doc ∷ docs) = some doc
nth_doc (suc n) (doc ∷ docs) = nth_doc n docs

-- docs[idx]
abbrev pub index_docs : ℤ → List Doc → Selection
unfolding nth_doc
index_docs (negsuc n) docs = panicked
index_docs (pos n) docs = elim (nth_doc n docs) [ none ↦ panicked | some doc ↦ selected doc ]

abbrev pub first_doc : List Doc → Diagnostic → Selection
first_doc [] d = refused d
first_doc (doc ∷ docs) d = selected doc

unfoldable pub select_index : ℤ → List Doc → Selection
unfolding leb_int index_docs
select_index idx docs =
    if leb_int (pos (length docs)) idx
    then refused (index_out_of_range idx (length docs))
    else index_docs idx docs

abbrev pub select_target : Printer → Option TargetSpec → List Doc → Selection
unfolding select_index matching_docs build_target_diagnostic
select_target p none docs = first_doc docs none_rendered
select_target p (some target) docs = elim target.document_index [
  | some idx ↦ select_index idx docs
  | none ↦ first_doc (matching_docs p target docs) (build_target_diagnostic p (some target) docs)
]

-- The target of the assertion, else that of the test.
abbrev pub effective_target : Assertion → Option TargetSpec → Option TargetSpec
effective_target (assertion negated none ls all any l) target = target
effective_target (assertion negated (some on) ls all any l) target = some on

unfoldable pub select_doc : Printer → Assertion → Option TargetSpec → List Doc → Selection
unfolding select_target
select_doc p a target docs =
    if is_set (leaves a).failed_template || is_set (leaves a).has_documents
    then no_document
    else select_target p (effective_target a target) docs
