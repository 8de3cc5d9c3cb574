-- ===== src/Runner/Evaluate/Verdict.antt =====
-- internal/runner/assert.go: when a test has no failure.
use vigie.Prelude.{
  String, ℕ, suc, ◌≡◌, ◌≢◌, ◌↔◌, ◌⊎◌, inl, inr, refl, true, false, Option, none, some, List, [],
  ◌∷◌, Bool-cases,
}
use vigie.Dsl.Assertion.{TargetSpec, Assertion, Assertions, nil, cons}
use vigie.Dsl.Suite.{Test}
use vigie.Runner.Documents.{
  Doc, Selection, selected, no_document, refused, panicked, Printer, select_all_docs, select_doc,
}
use vigie.Runner.Evaluate.{
  Failure, message, doc_message, diagnostic, Evaluate, Evaluated, failures, panic, outcome_of,
  evaluate_doc, evaluate_docs, and_then, MatcherAnswer, passes, fails, panics, evaluate_selected,
  evaluate_each, evaluate_matched, evaluate_assertions,
}

-- Each assertion passes on the document.
abbrev pub PassOn : Evaluate → Doc → Assertions → (assert_idx : ℕ) → Type 0
PassOn evaluate doc nil idx = Unit
PassOn evaluate doc (cons a asserts) idx =
    (evaluate a (some doc) idx ≡ passes) × PassOn evaluate doc asserts (suc idx)

abbrev pub PassOnAll : Evaluate → List Doc → Assertions → Type 0
PassOnAll evaluate [] asserts = Unit
PassOnAll evaluate (doc ∷ docs) asserts =
    PassOn evaluate doc asserts 0 × PassOnAll evaluate docs asserts

-- The assertion has a document, or needs none, and passes on it.
abbrev pub PassesSelected : Evaluate → Assertion → (assert_idx : ℕ) → Selection → Type 0
PassesSelected evaluate a idx (selected doc) = evaluate a (some doc) idx ≡ passes
PassesSelected evaluate a idx no_document = evaluate a none idx ≡ passes
PassesSelected evaluate a idx (refused d) = true ≡ false
PassesSelected evaluate a idx panicked = true ≡ false

abbrev pub PassEach :
    Printer → Evaluate → Option TargetSpec → List Doc → Assertions → (assert_idx : ℕ) → Type 0
PassEach p evaluate target docs nil idx = Unit
PassEach p evaluate target docs (cons a asserts) idx =
    PassesSelected evaluate a idx (select_doc p a target docs)
    × PassEach p evaluate target docs asserts (suc idx)

abbrev pub PassForEach : Evaluate → Test → (matched : List Doc) → Type 0
PassForEach evaluate test matched = (matched ≢ []) × PassOnAll evaluate matched test.asserts

-- With forEach, some document matches the target, and each assertion passes on each that does; else each
-- assertion passes on the document that is selected for it.
abbrev pub Passes : Printer → Evaluate → Test → List Doc → Type 0
Passes p evaluate test docs =
    ((test.for_each ≡ true) × PassForEach evaluate test (select_all_docs p test.target docs))
    ⊎ ((test.for_each ≡ false) × PassEach p evaluate test.target docs test.asserts 0)

both_empty : (a b : Evaluated) → and_then a b ≡ failures [] → (a ≡ failures []) × (b ≡ failures [])
both_empty panic b h = cc
both_empty (failures xs) panic h = cc
both_empty (failures []) (failures ys) h = (refl, h)
both_empty (failures (x ∷ xs)) (failures ys) h = cc

outcome_of-passes :
    (f : String → Failure) (a : MatcherAnswer) → outcome_of f a ≡ failures [] → a ≡ passes
outcome_of-passes f passes h = refl
outcome_of-passes f (fails text) h = cc
outcome_of-passes f panics h = cc

evaluate_doc-PassOn :
    (evaluate : Evaluate) (doc_idx : ℕ) (doc : Doc) (asserts : Assertions) (idx : ℕ)
    → (evaluate_doc evaluate doc_idx doc asserts idx ≡ failures [])
      ↔ PassOn evaluate doc asserts idx
unfolding evaluate_doc
evaluate_doc-PassOn evaluate doc_idx doc nil idx = (λ h. tt, λ h. refl)
evaluate_doc-PassOn evaluate doc_idx doc (cons a asserts) idx =
    let first = outcome_of (doc_message doc_idx) (evaluate a (some doc) idx) in
    let rest = evaluate_doc evaluate doc_idx doc asserts (suc idx) in
    let later = evaluate_doc-PassOn evaluate doc_idx doc asserts (suc idx) in
    (
      λ h.
          let (here, there) = both_empty first rest h in
          (outcome_of-passes (doc_message doc_idx) (evaluate a (some doc) idx) here, later.0 there),
      λ h. rw (h.0, later.1 h.1) refl,
    )

evaluate_docs-PassOnAll :
    (evaluate : Evaluate) (docs : List Doc) (doc_idx : ℕ) (asserts : Assertions)
    → (evaluate_docs evaluate docs doc_idx asserts ≡ failures []) ↔ PassOnAll evaluate docs asserts
unfolding evaluate_docs
evaluate_docs-PassOnAll evaluate [] doc_idx asserts = (λ h. tt, λ h. refl)
evaluate_docs-PassOnAll evaluate (doc ∷ docs) doc_idx asserts =
    let first = evaluate_doc evaluate doc_idx doc asserts 0 in
    let rest = evaluate_docs evaluate docs (suc doc_idx) asserts in
    let here = evaluate_doc-PassOn evaluate doc_idx doc asserts 0 in
    let later = evaluate_docs-PassOnAll evaluate docs (suc doc_idx) asserts in
    (
      λ h. let (a, b) = both_empty first rest h in (here.0 a, later.0 b),
      λ h. rw (here.1 h.0, later.1 h.1) refl,
    )

evaluate_selected-PassesSelected :
    (evaluate : Evaluate) (a : Assertion) (idx : ℕ) (s : Selection) (next : Evaluated)
    → (evaluate_selected evaluate a idx s next ≡ failures [])
      ↔ (PassesSelected evaluate a idx s × (next ≡ failures []))
evaluate_selected-PassesSelected evaluate a idx (selected doc) next = (
  λ h.
      let (here, there) = both_empty (outcome_of message (evaluate a (some doc) idx)) next h in
      (outcome_of-passes message (evaluate a (some doc) idx) here, there),
  λ h. rw (h.0, h.1) refl,
)
evaluate_selected-PassesSelected evaluate a idx no_document next = (
  λ h.
      let (here, there) = both_empty (outcome_of message (evaluate a none idx)) next h in
      (outcome_of-passes message (evaluate a none idx) here, there),
  λ h. rw (h.0, h.1) refl,
)
evaluate_selected-PassesSelected evaluate a idx (refused d) next =
    (λ h. let (here, there) = both_empty (failures (diagnostic d ∷ [])) next h in cc, λ h. cc)
evaluate_selected-PassesSelected evaluate a idx panicked next = (λ h. cc, λ h. cc)

evaluate_each-PassEach :
    (p : Printer) (evaluate : Evaluate) (target : Option TargetSpec) (docs : List Doc)
    (asserts : Assertions) (idx : ℕ)
    → (evaluate_each p evaluate target docs asserts idx ≡ failures [])
      ↔ PassEach p evaluate target docs asserts idx
unfolding evaluate_each
evaluate_each-PassEach p evaluate target docs nil idx = (λ h. tt, λ h. refl)
evaluate_each-PassEach p evaluate target docs (cons a asserts) idx =
    let here =
      evaluate_selected-PassesSelected evaluate a idx (select_doc p a target docs)
        (evaluate_each p evaluate target docs asserts (suc idx)) in
    let later = evaluate_each-PassEach p evaluate target docs asserts (suc idx) in
    (λ h. let (a, b) = here.0 h in (a, later.0 b), λ h. here.1 (h.0, later.1 h.1))

evaluate_matched-PassForEach :
    (p : Printer) (evaluate : Evaluate) (test : Test) (docs matched : List Doc)
    → (evaluate_matched p evaluate test docs matched ≡ failures [])
      ↔ PassForEach evaluate test matched
unfolding evaluate_matched
evaluate_matched-PassForEach p evaluate test docs [] = (λ h. cc, λ h. elim (h.0 refl) [ ])
evaluate_matched-PassForEach p evaluate test docs (doc ∷ rest) =
    let all = evaluate_docs-PassOnAll evaluate (doc ∷ rest) 0 test.asserts in
    (λ h. ((λ e. cc), all.0 h), λ h. all.1 h.1)

no_failure :
    (p : Printer) (evaluate : Evaluate) (test : Test) (docs : List Doc)
    → Passes p evaluate test docs
    → evaluate_assertions p evaluate test docs ≡ failures []
unfolding evaluate_assertions
no_failure p evaluate test docs (inl (e, h)) =
    let matched = select_all_docs p test.target docs in
    rw e ((evaluate_matched-PassForEach p evaluate test docs matched).1 h)
no_failure p evaluate test docs (inr (e, h)) =
    rw e ((evaluate_each-PassEach p evaluate test.target docs test.asserts 0).1 h)

-- A test has no failure exactly where its assertions pass: with forEach, some document matches the target
-- and each assertion passes on each that does; else, each assertion passes on the document that is selected
-- for it; a selection that fails or panics, and an assertion that panics, is no pass.
pub evaluate_assertions-Passes :
    (p : Printer) (evaluate : Evaluate) (test : Test) (docs : List Doc)
    → (evaluate_assertions p evaluate test docs ≡ failures []) ↔ Passes p evaluate test docs
unfolding evaluate_assertions
evaluate_assertions-Passes p evaluate test docs =
    let each = evaluate_each-PassEach p evaluate test.target docs test.asserts 0 in
    let matched = select_all_docs p test.target docs in
    let for_each = evaluate_matched-PassForEach p evaluate test docs matched in
    (
      λ h. elim (Bool-cases test.for_each) [
        | inl e ↦ inl (e, for_each.0 (rw (evaluate_assertions, e) at h))
        | inr e ↦ inr (e, each.0 (rw (evaluate_assertions, e) at h))
      ],
      no_failure p evaluate test docs,
    )
