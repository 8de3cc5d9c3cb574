-- ===== src/Runner/Documents/Selected.antt =====
-- internal/runner/runner.go: which document is selected.
use vigie.Prelude.{
  ℕ, zero, suc, ◌<◌, ◌≡◌, ◌≢◌, ◌⊎◌, inl, inr, refl, ap, ◌∙◌, true, false, ◌||◌, Option, none, some,
  List, [], ◌∷◌, length, Bool-cases, Option-cases, arith, leb,
}
use vigie.Prelude.Int.{ℤ, pos, negsuc, leb_int}
use vigie.Dsl.Assertion.{TargetSpec, Assertion, assertion, leaves, is_set}
use vigie.Runner.Documents.{
  Doc, Diagnostic, selected, no_document, refused, panicked, Printer, matches_target, matching_docs,
  index_out_of_range, none_rendered, nth_doc, index_docs, first_doc, select_index, select_target,
  effective_target, select_doc,
}

-- The first of the documents that matches.
abbrev pub IsFirstMatch : Printer → TargetSpec → List Doc → Doc → Type 0
IsFirstMatch p target [] doc = true ≡ false
IsFirstMatch p target (d ∷ docs) doc =
    ((matches_target p d target ≡ true) × (d ≡ doc))
    ⊎ ((matches_target p d target ≡ false) × IsFirstMatch p target docs doc)

-- Without a target the first document; with an index the one at it, whatever else the target asks for;
-- else the first that matches.
abbrev pub IsSelectedBy : Printer → Option TargetSpec → List Doc → Doc → Type 0
IsSelectedBy p none docs doc = nth_doc 0 docs ≡ some doc
IsSelectedBy p (some target) docs doc =
    ((n : ℕ) × (target.document_index ≡ some (pos n)) × (nth_doc n docs ≡ some doc))
    ⊎ ((target.document_index ≡ none) × IsFirstMatch p target docs doc)

-- The target that an assertion has of its own, if it has one.
abbrev own_target : Assertion → Option TargetSpec
own_target (assertion negated target ls all any l) = target

-- That target, and else the one of the test.
abbrev pub IsTargetOf : Assertion → (of_test target : Option TargetSpec) → Type 0
IsTargetOf a of_test target =
    ((t : TargetSpec) → own_target a ≡ some t → target ≡ some t)
    × (own_target a ≡ none → target ≡ of_test)

effective_target-IsTargetOf :
    (a : Assertion) (of_test : Option TargetSpec)
    → IsTargetOf a of_test (effective_target a of_test)
effective_target-IsTargetOf (assertion negated none ls all any l) of_test = (λ t e. cc, λ e. refl)
effective_target-IsTargetOf (assertion negated (some on) ls all any l) of_test = (λ t e. e, λ e. cc)

-- A document that is not counted from the end.
abbrev pub HasNoNegative : Option TargetSpec → Type 0
HasNoNegative none = Unit
HasNoNegative (some target) = (n : ℕ) → target.document_index ≢ some (negsuc n)

first_match :
    (p : Printer) (target : TargetSpec) (docs : List Doc) (doc : Doc) (d : Diagnostic)
    → first_doc (matching_docs p target docs) d ≡ selected doc
    → IsFirstMatch p target docs doc
unfolding matching_docs
first_match p target [] doc d h = cc
first_match p target (x ∷ docs) doc d h = elim (Bool-cases (matches_target p x target)) [
  | inl e ↦ let same : selected x ≡ selected doc = rw (matching_docs, e) at h in inl (e, cc)
  | inr e ↦ inr (e, first_match p target docs doc d (rw (matching_docs, e) at h))
]

index_docs-selected :
    (idx : ℤ) (docs : List Doc) (doc : Doc)
    → index_docs idx docs ≡ selected doc
    → (n : ℕ) × (idx ≡ pos n) × (nth_doc n docs ≡ some doc)
unfolding index_docs
index_docs-selected (negsuc n) docs doc h = cc
index_docs-selected (pos n) docs doc h = elim (Option-cases (nth_doc n docs)) [
  | inl e ↦ let bad : panicked ≡ selected doc = rw (e, index_docs) at h in cc
  | inr (x, e) ↦
      let same : selected x ≡ selected doc = rw (e, index_docs) at h in
      let it : x ≡ doc = cc in (n, refl, e ∙ ap some it)
]

select_index-selected :
    (idx : ℤ) (docs : List Doc) (doc : Doc)
    → select_index idx docs ≡ selected doc
    → (n : ℕ) × (idx ≡ pos n) × (nth_doc n docs ≡ some doc)
unfolding select_index
select_index-selected idx docs doc h = elim (Bool-cases (leb_int (pos (length docs)) idx)) [
  | inl far ↦
      let bad : refused (index_out_of_range idx (length docs)) ≡ selected doc =
        rw (select_index, far) at h in
      cc
  | inr near ↦ index_docs-selected idx docs doc (rw (select_index, near) at h)
]

select_target-selected :
    (p : Printer) (target : Option TargetSpec) (docs : List Doc) (doc : Doc)
    → select_target p target docs ≡ selected doc
    → IsSelectedBy p target docs doc
unfolding select_target nth_doc
select_target-selected p none [] doc h = cc
select_target-selected p none (d ∷ docs) doc h = let it : d ≡ doc = cc in ap some it
select_target-selected p (some target) docs doc h = elim (Option-cases target.document_index) [
  | inr (idx, e) ↦
      let (n, is, at) = select_index-selected idx docs doc (rw (select_target, e) at h) in
      inl (n, e ∙ ap some is, at)
  | inl e ↦ inr (e, first_match p target docs doc _ (rw (select_target, e) at h))
]

-- The document that selectDoc gives for an assertion is the first of all where neither the assertion nor
-- the test has a target, the one at the index where the target has one, and else the first that matches
-- the target; the target of the assertion replaces that of the test.
pub select_doc-IsSelectedBy :
    (p : Printer) (a : Assertion) (target : Option TargetSpec) (docs : List Doc) (doc : Doc)
    → select_doc p a target docs ≡ selected doc
    → (effective : Option TargetSpec) × IsTargetOf a target effective
      × IsSelectedBy p effective docs doc
unfolding select_doc
select_doc-IsSelectedBy p a target docs doc h =
    elim (Bool-cases (is_set (leaves a).failed_template || is_set (leaves a).has_documents)) [
      | inl e ↦ let bad : no_document ≡ selected doc = rw (select_doc, e) at h in cc
      | inr e ↦ (
        effective_target a target,
        effective_target-IsTargetOf a target,
        select_target-selected p (effective_target a target) docs doc (rw (select_doc, e) at h),
      )
    ]

nth_doc-near : (n : ℕ) (docs : List Doc) → n < length docs → nth_doc n docs ≢ none
unfolding nth_doc
nth_doc-near n [] h e = omega arith
nth_doc-near zero (d ∷ docs) h e = cc
nth_doc-near (suc n) (d ∷ docs) h e = nth_doc-near n docs (omega arith) e

select_index-ne-panicked : (n : ℕ) (docs : List Doc) → select_index (pos n) docs ≢ panicked
unfolding select_index leb_int
select_index-ne-panicked n docs = elim (Bool-cases (leb (length docs) n)) [
  | inl far ↦ rw far (λ h. cc)
  | inr near ↦ elim (Option-cases (nth_doc n docs)) [
    | inl gone ↦ elim (nth_doc-near n docs (ground arith) gone) [ ]
    | inr (d, e) ↦ rw (near, index_docs, e) (λ h. cc)
  ]
]

first_doc-ne-panicked : (docs : List Doc) (d : Diagnostic) → first_doc docs d ≢ panicked
first_doc-ne-panicked [] d = λ h. cc
first_doc-ne-panicked (x ∷ docs) d = λ h. cc

select_target-ne-panicked :
    (p : Printer) (target : Option TargetSpec) (docs : List Doc)
    → HasNoNegative target
    → select_target p target docs ≢ panicked
unfolding select_target
select_target-ne-panicked p none docs h = first_doc-ne-panicked docs none_rendered
select_target-ne-panicked p (some target) docs h = elim (Option-cases target.document_index) [
  | inl e ↦ rw e (first_doc-ne-panicked (matching_docs p target docs) _)
  | inr (pos n, e) ↦ rw e (select_index-ne-panicked n docs)
  | inr (negsuc n, e) ↦ elim (h n e) [ ]
]

-- Where no document is asked for by an index below 0, selectDoc indexes no list out of its bounds.
pub select_doc-ne-panicked :
    (p : Printer) (a : Assertion) (target : Option TargetSpec) (docs : List Doc)
    → HasNoNegative (effective_target a target)
    → select_doc p a target docs ≢ panicked
unfolding select_doc
select_doc-ne-panicked p a target docs h =
    elim (Bool-cases (is_set (leaves a).failed_template || is_set (leaves a).has_documents)) [
      | inl e ↦ rw e (λ k. cc)
      | inr e ↦ rw e (select_target-ne-panicked p (effective_target a target) docs h)
    ]
