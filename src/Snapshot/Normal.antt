-- ===== src/Snapshot/Normal.antt =====
-- internal/snapshot/normalize.go: what is stripped from a document before it is compared. A map is built
-- anew from the entries of an iteration; the new map has its entries in the same order.
use vigie.Prelude.{
  String, ◌≡◌, ==→≡, refl, ap, Bool, true, false, ◌&&◌, List, [], ◌∷◌, ◌==◌, if◌then◌else◌,
  contains, Bool-cases, inl, inr,
}
use vigie.Value.{
  Value, Items, Fields, null, bool, int, float, str, slice, object, nil, cons, end, field,
}

abbrev pub helm_annotations : List String
helm_annotations =
    "helm.sh/hook-weight" ∷ "helm.sh/hook" ∷ "helm.sh/hook-delete-policy"
    ∷ "kubectl.kubernetes.io/last-applied-configuration" ∷ []

abbrev pub is_null : Value → Bool
is_null null = true
is_null _ = false

-- An empty map of annotations becomes nil.
abbrev pub or_null : Fields → Value
or_null end = null
or_null (field k v m) = object (field k v m)

unfoldable mutual
  pub normalize_value : Value → Value
  normalize_value (object m) = object (normalize_map m)
  normalize_value (slice items) = slice (normalize_items items)
  normalize_value null = null
  normalize_value (bool b) = bool b
  normalize_value (int n) = int n
  normalize_value (float n) = float n
  normalize_value (str s) = str s

  pub normalize_items : Items → Items
  normalize_items nil = nil
  normalize_items (cons v items) = cons (normalize_value v) (normalize_items items)

  pub normalize_map : Fields → Fields
  normalize_map end = end
  normalize_map (field k v m) =
      let rest = normalize_map m in
      let metadata = normalize_metadata v in
      let value = normalize_value v in
      if k == "creationTimestamp" && is_null v
      then rest
      else if k == "metadata"
      then field k metadata rest
      else field k value rest

  pub normalize_metadata : Value → Value
  normalize_metadata (object m) = object (normalize_metadata_map m)
  normalize_metadata (slice items) = slice (normalize_items items)
  normalize_metadata null = null
  normalize_metadata (bool b) = bool b
  normalize_metadata (int n) = int n
  normalize_metadata (float n) = float n
  normalize_metadata (str s) = str s

  pub normalize_metadata_map : Fields → Fields
  normalize_metadata_map end = end
  normalize_metadata_map (field k v m) =
      let rest = normalize_metadata_map m in
      let annotations = normalize_annotations v in
      let value = normalize_value v in
      if k == "annotations"
      then field k annotations rest
      else if k == "creationTimestamp" && is_null v
      then rest
      else field k value rest

  pub normalize_annotations : Value → Value
  normalize_annotations (object m) = or_null (normalize_annotations_map m)
  normalize_annotations (slice items) = slice (normalize_items items)
  normalize_annotations null = null
  normalize_annotations (bool b) = bool b
  normalize_annotations (int n) = int n
  normalize_annotations (float n) = float n
  normalize_annotations (str s) = str s

  pub normalize_annotations_map : Fields → Fields
  normalize_annotations_map end = end
  normalize_annotations_map (field k v m) =
      let rest = normalize_annotations_map m in
      let value = normalize_value v in
      if contains k helm_annotations then rest else field k value rest

-- Normalize
abbrev pub normalize : Value → Value
normalize doc = normalize_value doc

is_null-normalize : (v : Value) → is_null (normalize_value v) ≡ is_null v
unfolding normalize_value
is_null-normalize null = refl
is_null-normalize (bool b) = refl
is_null-normalize (int n) = refl
is_null-normalize (float n) = refl
is_null-normalize (str s) = refl
is_null-normalize (slice xs) = refl
is_null-normalize (object m) = refl

or_null_idem :
    (m : Fields) → normalize_annotations_map m ≡ m → normalize_annotations (or_null m) ≡ or_null m
unfolding normalize_value
or_null_idem end h = refl
or_null_idem (field k v m) h = ap or_null h

-- An entry of each kind of map, where the parts are normal once they are normalized.
map_idem-field :
    (k : String) (v : Value) (m : Fields)
    → normalize_value (normalize_value v) ≡ normalize_value v
    → normalize_metadata (normalize_metadata v) ≡ normalize_metadata v
    → normalize_map (normalize_map m) ≡ normalize_map m
    → normalize_map (normalize_map (field k v m)) ≡ normalize_map (field k v m)
unfolding normalize_value
map_idem-field k v m hv hd hm = elim (Bool-cases (k == "creationTimestamp" && is_null v)) [
  | inl e ↦ rw e hm
  | inr e ↦ elim (Bool-cases (k == "metadata")) [
    | inl d ↦
        let other : (k == "creationTimestamp" && is_null (normalize_metadata v)) ≡ false =
          rw (==→≡ k "metadata" d) refl in
        rw (e, d, other, d, hd, hm) refl
    | inr d ↦
        let still : (k == "creationTimestamp" && is_null (normalize_value v)) ≡ false =
          rw (is_null-normalize v) e in
        rw (e, d, still, d, hv, hm) refl
  ]
]

metadata_idem-field :
    (k : String) (v : Value) (m : Fields)
    → normalize_value (normalize_value v) ≡ normalize_value v
    → normalize_annotations (normalize_annotations v) ≡ normalize_annotations v
    → normalize_metadata_map (normalize_metadata_map m) ≡ normalize_metadata_map m
    → normalize_metadata_map (normalize_metadata_map (field k v m))
      ≡ normalize_metadata_map (field k v m)
unfolding normalize_value
metadata_idem-field k v m hv ha hm = elim (Bool-cases (k == "annotations")) [
  | inl d ↦ rw (d, d, ha, hm) refl
  | inr d ↦ elim (Bool-cases (k == "creationTimestamp" && is_null v)) [
    | inl e ↦ rw (d, e) hm
    | inr e ↦
        let still : (k == "creationTimestamp" && is_null (normalize_value v)) ≡ false =
          rw (is_null-normalize v) e in
        rw (d, e, d, still, hv, hm) refl
  ]
]

annotations_idem-field :
    (k : String) (v : Value) (m : Fields)
    → normalize_value (normalize_value v) ≡ normalize_value v
    → normalize_annotations_map (normalize_annotations_map m) ≡ normalize_annotations_map m
    → normalize_annotations_map (normalize_annotations_map (field k v m))
      ≡ normalize_annotations_map (field k v m)
unfolding normalize_value
annotations_idem-field k v m hv hm = elim (Bool-cases (contains k helm_annotations)) [
  | inl d ↦ rw d hm
  | inr d ↦ rw (d, d, hv, hm) refl
]

mutual
  unfolding normalize_value

  value_idem : (v : Value) → normalize_value (normalize_value v) ≡ normalize_value v
  value_idem (object m) = ap object (map_idem m)
  value_idem (slice items) = ap slice (items_idem items)
  value_idem null = refl
  value_idem (bool b) = refl
  value_idem (int n) = refl
  value_idem (float n) = refl
  value_idem (str s) = refl

  items_idem : (items : Items) → normalize_items (normalize_items items) ≡ normalize_items items
  items_idem nil = refl
  items_idem (cons v items) = rw (value_idem v, items_idem items) refl

  map_idem : (m : Fields) → normalize_map (normalize_map m) ≡ normalize_map m
  map_idem end = refl
  map_idem (field k v m) = map_idem-field k v m (value_idem v) (metadata_idem v) (map_idem m)

  metadata_idem : (v : Value) → normalize_metadata (normalize_metadata v) ≡ normalize_metadata v
  metadata_idem (object m) = ap object (metadata_map_idem m)
  metadata_idem (slice items) = ap slice (items_idem items)
  metadata_idem null = refl
  metadata_idem (bool b) = refl
  metadata_idem (int n) = refl
  metadata_idem (float n) = refl
  metadata_idem (str s) = refl

  metadata_map_idem :
      (m : Fields) → normalize_metadata_map (normalize_metadata_map m) ≡ normalize_metadata_map m
  metadata_map_idem end = refl
  metadata_map_idem (field k v m) =
      metadata_idem-field k v m (value_idem v) (annotations_idem v) (metadata_map_idem m)

  annotations_idem :
      (v : Value) → normalize_annotations (normalize_annotations v) ≡ normalize_annotations v
  annotations_idem (object m) = or_null_idem (normalize_annotations_map m) (annotations_map_idem m)
  annotations_idem (slice items) = ap slice (items_idem items)
  annotations_idem null = refl
  annotations_idem (bool b) = refl
  annotations_idem (int n) = refl
  annotations_idem (float n) = refl
  annotations_idem (str s) = refl

  annotations_map_idem :
      (m : Fields)
      → normalize_annotations_map (normalize_annotations_map m) ≡ normalize_annotations_map m
  annotations_map_idem end = refl
  annotations_map_idem (field k v m) =
      annotations_idem-field k v m (value_idem v) (annotations_map_idem m)

-- Normalizing a document that is normalized changes nothing.
pub normalize_idem : (doc : Value) → normalize (normalize doc) ≡ normalize doc
normalize_idem doc = value_idem doc
