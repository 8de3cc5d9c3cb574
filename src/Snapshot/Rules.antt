-- ===== src/Snapshot/Rules.antt =====
-- internal/snapshot/normalize.go: the rules of a normalized document, apart from the code.
use vigie.Prelude.{
  String, ◌≡◌, ◌≢◌, ◌↔◌, eq_iff, ==→≡, refl, Bool, true, false, ◌&&◌, &&-true, ◌==◌, if◌then◌else◌,
  contains, Bool-cases, ◌⊎◌, inl, inr, arith,
}
use vigie.Value.{
  Value, Items, Fields, null, bool, int, float, str, slice, object, nil, cons, end, field,
}
use vigie.Snapshot.Normal.{
  helm_annotations, is_null, or_null, normalize_value, normalize_items, normalize_map,
  normalize_metadata, normalize_metadata_map, normalize_annotations, normalize_annotations_map,
}

-- Where a value stands: under the key metadata, in it under the key annotations, or anywhere else.
pub data Place : Type 0 where
  in_metadata in_annotations anywhere : Place

abbrev pub place_under : Place → (key : String) → Place
place_under anywhere k = if k == "metadata" then in_metadata else anywhere
place_under in_metadata k = if k == "annotations" then in_annotations else anywhere
place_under in_annotations k = anywhere

-- The annotations that Helm and kubectl write.
abbrev pub IsOfTool : String → Type 0
IsOfTool k =
    (k ≡ "helm.sh/hook-weight")
    ⊎ (k ≡ "helm.sh/hook")
    ⊎ (k ≡ "helm.sh/hook-delete-policy")
    ⊎ (k ≡ "kubectl.kubernetes.io/last-applied-configuration")

-- The entries that go: annotations of these tools, and elsewhere a creationTimestamp that is null.
abbrev pub IsDropped : Place → String → Value → Type 0
IsDropped in_annotations k v = IsOfTool k
IsDropped anywhere k v = (k ≡ "creationTimestamp") × (v ≡ null)
IsDropped in_metadata k v = (k ≡ "creationTimestamp") × (v ≡ null)

abbrev pub IsScalar : Value → Type 0
IsScalar (object m) = ⊥
IsScalar (slice items) = ⊥
IsScalar _ = Unit

-- What a value at a place becomes. All other entries and all items stay, in their order, and annotations of
-- which none is left become null.
mutual
  pub data Becomes : Place → Value → Value → Type 0 where
    scalar : (place : Place) (v : Value) → IsScalar v → Becomes place v v
    items :
        (place : Place) (xs ys : Items) → BecomeItems xs ys → Becomes place (slice xs) (slice ys)
    entries :
        (place : Place) (m n : Fields)
        → (place ≢ in_annotations) ⊎ (n ≢ end)
        → BecomeFields place m n
        → Becomes place (object m) (object n)
    none_left :
        (m : Fields) → BecomeFields in_annotations m end → Becomes in_annotations (object m) null

  pub data BecomeItems : Items → Items → Type 0 where
    no_items : BecomeItems nil nil
    item :
        (v w : Value) (xs ys : Items)
        → Becomes anywhere v w
        → BecomeItems xs ys
        → BecomeItems (cons v xs) (cons w ys)

  pub data BecomeFields : Place → Fields → Fields → Type 0 where
    no_entries : (place : Place) → BecomeFields place end end
    dropped :
        (place : Place) (k : String) (v : Value) (m n : Fields)
        → IsDropped place k v
        → BecomeFields place m n
        → BecomeFields place (field k v m) n
    kept :
        (place : Place) (k : String) (v w : Value) (m n : Fields)
        → ¬ IsDropped place k v
        → Becomes (place_under place k) v w
        → BecomeFields place m n
        → BecomeFields place (field k v m) (field k w n)

of_tool : (k : String) → (contains k helm_annotations ≡ true) ↔ IsOfTool k
of_tool k = (
  λ h. ground (
    arith,
    eq_iff "helm.sh/hook-weight" k,
    eq_iff "helm.sh/hook" k,
    eq_iff "helm.sh/hook-delete-policy" k,
    eq_iff "kubectl.kubernetes.io/last-applied-configuration" k,
  ),
  λ t. elim t [
    | inl e ↦ rw e refl
    | inr (inl e) ↦ rw e refl
    | inr (inr (inl e)) ↦ rw e refl
    | inr (inr (inr e)) ↦ rw e refl
  ],
)

is_null-null : (v : Value) → is_null v ≡ true → v ≡ null
is_null-null null h = refl
is_null-null (bool b) h = cc
is_null-null (int n) h = cc
is_null-null (float n) h = cc
is_null-null (str s) h = cc
is_null-null (slice xs) h = cc
is_null-null (object m) h = cc

-- The test of the code for a creationTimestamp that is null.
is_stamp :
    (k : String) (v : Value)
    → ((k == "creationTimestamp" && is_null v) ≡ true) ↔ ((k ≡ "creationTimestamp") × (v ≡ null))
is_stamp k v = (
  λ h.
      let (same, none_in) = &&-true (k == "creationTimestamp") _ h in
      (==→≡ k "creationTimestamp" same, is_null-null v none_in),
  λ (e, n). rw (e, n) refl,
)

refuted {ℓ} : {P : Type ℓ} {b : Bool} → (b ≡ true) ↔ P → b ≡ false → ¬ P
refuted test e p = let yes_then = test.1 p in cc

or_null-Becomes :
    (m n : Fields) → BecomeFields in_annotations m n → Becomes in_annotations (object m) (or_null n)
or_null-Becomes m end h = none_left m h
or_null-Becomes m (field k v n) h = entries in_annotations m (field k v n) (inr (λ e. cc)) h

-- An entry of each kind of map.
map_field :
    (k : String) (v : Value) (m : Fields)
    → Becomes anywhere v (normalize_value v)
    → Becomes in_metadata v (normalize_metadata v)
    → BecomeFields anywhere m (normalize_map m)
    → BecomeFields anywhere (field k v m) (normalize_map (field k v m))
unfolding normalize_value
map_field k v m hv hd hm = elim (Bool-cases (k == "creationTimestamp" && is_null v)) [
  | inl e ↦ rw e (dropped anywhere k v m _ ((is_stamp k v).0 e) hm)
  | inr e ↦ elim (Bool-cases (k == "metadata")) [
    | inl d ↦ rw (e, d) (kept anywhere k v _ m _ (refuted (is_stamp k v) e) (rw d hd) hm)
    | inr d ↦ rw (e, d) (kept anywhere k v _ m _ (refuted (is_stamp k v) e) (rw d hv) hm)
  ]
]

metadata_field :
    (k : String) (v : Value) (m : Fields)
    → Becomes anywhere v (normalize_value v)
    → Becomes in_annotations v (normalize_annotations v)
    → BecomeFields in_metadata m (normalize_metadata_map m)
    → BecomeFields in_metadata (field k v m) (normalize_metadata_map (field k v m))
unfolding normalize_value
metadata_field k v m hv ha hm = elim (Bool-cases (k == "annotations")) [
  | inl d ↦
      let other : (k == "creationTimestamp" && is_null v) ≡ false =
        rw (==→≡ k "annotations" d) refl in
      rw d (kept in_metadata k v _ m _ (refuted (is_stamp k v) other) (rw d ha) hm)
  | inr d ↦ elim (Bool-cases (k == "creationTimestamp" && is_null v)) [
    | inl e ↦ rw (d, e) (dropped in_metadata k v m _ ((is_stamp k v).0 e) hm)
    | inr e ↦ rw (d, e) (kept in_metadata k v _ m _ (refuted (is_stamp k v) e) (rw d hv) hm)
  ]
]

annotations_field :
    (k : String) (v : Value) (m : Fields)
    → Becomes anywhere v (normalize_value v)
    → BecomeFields in_annotations m (normalize_annotations_map m)
    → BecomeFields in_annotations (field k v m) (normalize_annotations_map (field k v m))
unfolding normalize_value
annotations_field k v m hv hm = elim (Bool-cases (contains k helm_annotations)) [
  | inl e ↦ rw e (dropped in_annotations k v m _ ((of_tool k).0 e) hm)
  | inr e ↦ rw e (kept in_annotations k v _ m _ (refuted (of_tool k) e) hv hm)
]

mutual
  unfolding normalize_value

  value-Becomes : (v : Value) → Becomes anywhere v (normalize_value v)
  value-Becomes (object m) = entries anywhere m _ (inl (λ e. cc)) (map-BecomeFields m)
  value-Becomes (slice xs) = items anywhere xs _ (items-BecomeItems xs)
  value-Becomes null = scalar anywhere null tt
  value-Becomes (bool b) = scalar anywhere (bool b) tt
  value-Becomes (int n) = scalar anywhere (int n) tt
  value-Becomes (float n) = scalar anywhere (float n) tt
  value-Becomes (str s) = scalar anywhere (str s) tt

  items-BecomeItems : (xs : Items) → BecomeItems xs (normalize_items xs)
  items-BecomeItems nil = no_items
  items-BecomeItems (cons v xs) = item v _ xs _ (value-Becomes v) (items-BecomeItems xs)

  map-BecomeFields : (m : Fields) → BecomeFields anywhere m (normalize_map m)
  map-BecomeFields end = no_entries anywhere
  map-BecomeFields (field k v m) =
      map_field k v m (value-Becomes v) (metadata-Becomes v) (map-BecomeFields m)

  metadata-Becomes : (v : Value) → Becomes in_metadata v (normalize_metadata v)
  metadata-Becomes (object m) =
      entries in_metadata m _ (inl (λ e. cc)) (metadata_map-BecomeFields m)
  metadata-Becomes (slice xs) = items in_metadata xs _ (items-BecomeItems xs)
  metadata-Becomes null = scalar in_metadata null tt
  metadata-Becomes (bool b) = scalar in_metadata (bool b) tt
  metadata-Becomes (int n) = scalar in_metadata (int n) tt
  metadata-Becomes (float n) = scalar in_metadata (float n) tt
  metadata-Becomes (str s) = scalar in_metadata (str s) tt

  metadata_map-BecomeFields : (m : Fields) → BecomeFields in_metadata m (normalize_metadata_map m)
  metadata_map-BecomeFields end = no_entries in_metadata
  metadata_map-BecomeFields (field k v m) =
      metadata_field k v m (value-Becomes v) (annotations-Becomes v) (metadata_map-BecomeFields m)

  annotations-Becomes : (v : Value) → Becomes in_annotations v (normalize_annotations v)
  annotations-Becomes (object m) =
      or_null-Becomes m (normalize_annotations_map m) (annotations_map-BecomeFields m)
  annotations-Becomes (slice xs) = items in_annotations xs _ (items-BecomeItems xs)
  annotations-Becomes null = scalar in_annotations null tt
  annotations-Becomes (bool b) = scalar in_annotations (bool b) tt
  annotations-Becomes (int n) = scalar in_annotations (int n) tt
  annotations-Becomes (float n) = scalar in_annotations (float n) tt
  annotations-Becomes (str s) = scalar in_annotations (str s) tt

  annotations_map-BecomeFields :
      (m : Fields) → BecomeFields in_annotations m (normalize_annotations_map m)
  annotations_map-BecomeFields end = no_entries in_annotations
  annotations_map-BecomeFields (field k v m) =
      annotations_field k v m (value-Becomes v) (annotations_map-BecomeFields m)
