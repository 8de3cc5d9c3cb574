-- ===== src/Snapshot/Stripped.antt =====
-- internal/snapshot/normalize.go: which annotations are left, and what they hold.
use vigie.Prelude.{
  String, ◌≡◌, ==→≡, refl, ◌∙◌, true, false, Option, none, some, ◌==◌, if◌then◌else◌, contains,
  Bool-cases, inl, inr,
}
use vigie.Value.{Value, Fields, end, field, get}
use vigie.Snapshot.Normal.{helm_annotations, normalize_value, normalize_annotations_map}

abbrev pub normalized : Option Value → Option Value
normalized none = none
normalized (some v) = some (normalize_value v)

-- Of the annotations, those of Helm and kubectl are gone, and each other one holds what it held,
-- normalized.
pub get-normalize_annotations_map :
    (k : String) (m : Fields)
    → get k (normalize_annotations_map m)
      ≡ (if contains k helm_annotations then none else normalized (get k m))
unfolding get normalize_value
get-normalize_annotations_map k end = elim (Bool-cases (contains k helm_annotations)) [
  | inl e ↦ rw e refl
  | inr e ↦ rw e refl
]
get-normalize_annotations_map k (field j v m) = elim (Bool-cases (j == k)) [
  | inl same ↦
      let equal : j ≡ k = ==→≡ j k same in
      elim (Bool-cases (contains j helm_annotations)) [
        | inl gone ↦
            let gone' : contains k helm_annotations ≡ true = rw (← equal) gone in
            rw gone (get-normalize_annotations_map k m ∙ rw gone' refl)
        | inr kept ↦
            let kept' : contains k helm_annotations ≡ false = rw (← equal) kept in
            rw (kept, kept', same) refl
      ]
  | inr other ↦ elim (Bool-cases (contains j helm_annotations)) [
    | inl gone ↦ rw (gone, other) (get-normalize_annotations_map k m)
    | inr kept ↦ rw (kept, other) (get-normalize_annotations_map k m)
  ]
]
