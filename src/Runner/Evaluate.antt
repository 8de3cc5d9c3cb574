-- ===== src/Runner/Evaluate.antt =====
-- internal/runner/assert.go: the assertions of a test on the documents that were rendered for it. The
-- text of a failure is a value with its parts.
pub mod Verdict
use vigie.Prelude.{
  String, ℕ, zero, suc, Bool, true, false, Option, none, some, List, [], ◌∷◌, ◌++◌, if◌then◌else◌,
}
use vigie.Dsl.Assertion.{TargetSpec, Assertion, Assertions, nil, cons}
use vigie.Dsl.Suite.{Test}
use vigie.Dsl.Ceiling.{reads_live_state}
use vigie.Runner.Documents.{
  Doc, Diagnostic, Selection, selected, no_document, refused, panicked, Printer, select_all_docs,
  build_target_diagnostic, select_doc,
}

-- A failure of a test: the message of an assertion, with the number of the document where there are
-- several, or the diagnostic of a selection.
pub data Failure : Type 0 where
  message : (text : String) → Failure
  doc_message : (doc : ℕ) (text : String) → Failure
  diagnostic : Diagnostic → Failure

-- What matchers.Evaluate makes of an assertion: a pass, a failure with its message, or a panic.
pub data MatcherAnswer : Type 0 where
  passes : MatcherAnswer
  fails : (text : String) → MatcherAnswer
  panics : MatcherAnswer

-- matchers.Evaluate in the context of the test. The document is nil where none is selected.
abbrev pub Evaluate : Type 0
Evaluate = Assertion → Option Doc → (assert_idx : ℕ) → MatcherAnswer

-- How the evaluation ends: with the failures, or in a panic.
pub data Evaluated : Type 0 where
  failures : List Failure → Evaluated
  panic : Evaluated

abbrev pub outcome_of : (String → Failure) → MatcherAnswer → Evaluated
outcome_of f passes = failures []
outcome_of f (fails text) = failures (f text ∷ [])
outcome_of f panics = panic

-- What comes first and what follows it: a panic ends the evaluation.
abbrev pub and_then : Evaluated → Evaluated → Evaluated
and_then panic next = panic
and_then (failures xs) panic = panic
and_then (failures xs) (failures ys) = failures (xs ++ ys)

-- The inner loop over the assertions, for one document.
unfoldable pub evaluate_doc :
    Evaluate → (doc_idx : ℕ) → Doc → Assertions → (assert_idx : ℕ) → Evaluated
evaluate_doc evaluate doc_idx doc nil idx = failures []
evaluate_doc evaluate doc_idx doc (cons a asserts) idx =
    and_then (outcome_of (doc_message doc_idx) (evaluate a (some doc) idx))
      (evaluate_doc evaluate doc_idx doc asserts (suc idx))

-- The loop over the documents.
unfoldable pub evaluate_docs : Evaluate → List Doc → (doc_idx : ℕ) → Assertions → Evaluated
unfolding evaluate_doc
evaluate_docs evaluate [] doc_idx asserts = failures []
evaluate_docs evaluate (doc ∷ docs) doc_idx asserts =
    and_then (evaluate_doc evaluate doc_idx doc asserts 0)
      (evaluate_docs evaluate docs (suc doc_idx) asserts)

-- One assertion: its document, and what it says of it; `next` are the assertions after it.
abbrev pub evaluate_selected :
    Evaluate → Assertion → (assert_idx : ℕ) → Selection → (next : Evaluated) → Evaluated
evaluate_selected evaluate a idx (refused d) next = and_then (failures (diagnostic d ∷ [])) next
evaluate_selected evaluate a idx (selected doc) next =
    and_then (outcome_of message (evaluate a (some doc) idx)) next
evaluate_selected evaluate a idx no_document next =
    and_then (outcome_of message (evaluate a none idx)) next
evaluate_selected evaluate a idx panicked next = panic

-- The loop over the assertions, each with its own document.
unfoldable pub evaluate_each :
    Printer → Evaluate → Option TargetSpec → List Doc → Assertions → (assert_idx : ℕ) → Evaluated
unfolding select_doc
evaluate_each p evaluate target docs nil idx = failures []
evaluate_each p evaluate target docs (cons a asserts) idx =
    evaluate_selected evaluate a idx (select_doc p a target docs)
      (evaluate_each p evaluate target docs asserts (suc idx))

abbrev pub evaluate_matched :
    Printer → Evaluate → Test → List Doc → (matched : List Doc) → Evaluated
unfolding evaluate_docs build_target_diagnostic
evaluate_matched p evaluate test docs [] =
    failures (diagnostic (build_target_diagnostic p test.target docs) ∷ [])
evaluate_matched p evaluate test docs (doc ∷ rest) =
    evaluate_docs evaluate (doc ∷ rest) 0 test.asserts

unfoldable pub evaluate_assertions : Printer → Evaluate → Test → List Doc → Evaluated
unfolding evaluate_each evaluate_matched select_all_docs
evaluate_assertions p evaluate test docs =
    if test.for_each
    then evaluate_matched p evaluate test docs (select_all_docs p test.target docs)
    else evaluate_each p evaluate test.target docs test.asserts 0

-- (LiveAsserts, RenderedAsserts)
unfoldable pub count_asserts : Assertions → ℕ × ℕ
unfolding reads_live_state
count_asserts nil = (0, 0)
count_asserts (cons a asserts) =
    let (live, rendered) = count_asserts asserts in
    if reads_live_state a then (suc live, rendered) else (live, suc rendered)
