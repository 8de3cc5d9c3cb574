-- ===== src/Http/JsonPath/Ends.antt =====
-- internal/matchers/http.go: the recursion of traverseJSONPath ends, and indexes no slice out of its
-- bounds.
use vigie.Prelude.{
  String, ◌≡◌, ◌≢◌, refl, ℕ, zero, suc, ◌≤◌, ◌<◌, Bool, true, false, not, ◌&&◌, Option, none, some,
  ◌==◌, ltb, leb, arith, if◌then◌else◌, Bool-cases, Option-cases, inl, inr,
}
use vigie.Prelude.Texts.{size, index_of, drop, has_prefix, size-drop}
use vigie.Prelude.Int.{pos, negsuc, leb_int, is_negative}
use vigie.Value.{Value, null, bool, int, float, str, slice, object, Items, nil, cons, get}
use vigie.Path.{nth}
use vigie.Http.JsonPath.{
  Walk, found, not_found, panicked, out_of_fuel, trim_dot, split_dotted, split_bracket,
  split_segment, items_length, Stage, into, ends, enter_slice, enter, into_found, traverse,
  eval_json_path, parse_array_index,
}

trim_dot-size : (s : String) → size (trim_dot s) ≤ size s
trim_dot-size String.[] = omega arith
trim_dot-size (String.◌∷◌ c s) = ground arith

split_bracket-size :
    (end : Option ℕ) (s : String) → 0 < size s → size (split_bracket end s).1 < size s
split_bracket-size none s h = h
split_bracket-size (some end) s h =
    omega (arith, trim_dot-size (drop (suc end) s), size-drop (suc end) s)

-- A bracket that is not the first character.
later_index : (s : String) → has_prefix s "[" ≡ false → (i : ℕ) → index_of 91 s ≡ some i → 0 < i
unfolding has_prefix index_of
later_index String.[] p i h = cc
later_index (String.◌∷◌ c s) p i h = ground arith

split_dotted-size :
    (dot bracket : Option ℕ) (s : String)
    → 0 < size s
    → ((i : ℕ) → bracket ≡ some i → 0 < i)
    → size (split_dotted dot bracket s).1 < size s
split_dotted-size none none s h later = h
split_dotted-size none (some b) s h later = omega (arith, later b refl, size-drop b s)
split_dotted-size (some d) none s h later = omega (arith, size-drop (suc d) s)
split_dotted-size (some d) (some b) s h later = elim (Bool-cases (ltb d b)) [
  | inl e ↦ rw e (omega (arith, size-drop (suc d) s))
  | inr e ↦ rw e (omega (arith, later b refl, size-drop b s))
]

pub split_segment-size : (s : String) → 0 < size s → size (split_segment s).1 < size s
unfolding split_segment
split_segment-size s h = elim (Bool-cases (has_prefix s "[")) [
  | inl e ↦ rw e (split_bracket-size (index_of 93 s) s h)
  | inr e ↦ rw e (split_dotted-size (index_of 46 s) (index_of 91 s) s h (later_index s e))
]

-- The two ways in which the code would not return.
abbrev pub IsReturned : Walk → Type 0
IsReturned w = (w ≢ panicked) × (w ≢ out_of_fuel)

nth-in_range : (n : ℕ) (items : Items) → n < items_length items → nth n items ≢ none
unfolding nth
nth-in_range n nil h e = omega arith
nth-in_range zero (cons v items) h e = cc
nth-in_range (suc n) (cons v items) h e = nth-in_range n items (omega arith) e

abbrev EndsWell : Stage → Type 0
EndsWell (into v) = Unit
EndsWell (ends w) = IsReturned w

enter_slice-EndsWell : (segment : String) (items : Items) → EndsWell (enter_slice segment items)
unfolding enter_slice leb_int is_negative
enter_slice-EndsWell segment items = elim (Option-cases (parse_array_index segment)) [
  | inl e ↦ rw (e, EndsWell) (λ h. cc, λ h. cc)
  | inr (negsuc n, e) ↦ rw (e, EndsWell) (λ h. cc, λ h. cc)
  | inr (pos n, e) ↦ elim (Bool-cases (leb (items_length items) n)) [
    | inl far ↦ rw (e, EndsWell, far) (λ h. cc, λ h. cc)
    | inr near ↦ elim (Option-cases (nth n items)) [
      | inl missing ↦ elim (nth-in_range n items (ground arith) missing) [ ]
      | inr (v, hit) ↦ rw (e, EndsWell, near, hit) tt
    ]
  ]
]

into_found-EndsWell : (o : Option Value) → EndsWell (into_found o)
into_found-EndsWell none = (λ h. cc, λ h. cc)
into_found-EndsWell (some v) = tt

scalar-EndsWell : (b : Bool) (v : Value) → EndsWell (if b then ends (found v) else ends not_found)
scalar-EndsWell true v = (λ h. cc, λ h. cc)
scalar-EndsWell false v = (λ h. cc, λ h. cc)

enter-EndsWell : (segment : String) (doc : Value) → EndsWell (enter segment doc)
unfolding enter
enter-EndsWell segment (object m) = into_found-EndsWell (get segment m)
enter-EndsWell segment (slice items) = enter_slice-EndsWell segment items
enter-EndsWell segment null = scalar-EndsWell (segment == "") null
enter-EndsWell segment (bool b) = scalar-EndsWell (segment == "") (bool b)
enter-EndsWell segment (int n) = scalar-EndsWell (segment == "") (int n)
enter-EndsWell segment (float n) = scalar-EndsWell (segment == "") (float n)
enter-EndsWell segment (str s) = scalar-EndsWell (segment == "") (str s)

go_on-IsReturned :
    (stage : Stage) (go : Value → Walk)
    → EndsWell stage
    → ((v : Value) → IsReturned (go v))
    → IsReturned (elim stage [ into v ↦ go v | ends walk ↦ walk ])
go_on-IsReturned (into v) go h k = k v
go_on-IsReturned (ends w) go h k = h

traverse-IsReturned :
    (fuel : ℕ) (path : String) (doc : Value)
    → size path ≤ fuel
    → IsReturned (traverse fuel path doc)
unfolding traverse
traverse-IsReturned fuel String.[] doc h = (λ h. cc, λ h. cc)
traverse-IsReturned zero (String.◌∷◌ c s) doc h = omega arith
traverse-IsReturned (suc fuel) (String.◌∷◌ c s) doc h =
    let path = String.◌∷◌ c s in
    let (segment, rest) = split_segment path in
    go_on-IsReturned (enter segment doc) (λ v. traverse fuel rest v) (enter-EndsWell segment doc)
      (λ v. traverse-IsReturned fuel rest v (omega (arith, split_segment-size path (omega arith))))

-- A jsonPath expression followed into a document always returns: the recursion comes to the end of the
-- path, and no index is outside its slice, whatever the expression and the document.
pub eval_json_path-IsReturned : (expr : String) (doc : Value) → IsReturned (eval_json_path expr doc)
unfolding eval_json_path
eval_json_path-IsReturned expr doc =
    elim (Bool-cases (not (has_prefix expr "$.") && not (expr == "$"))) [
      | inl e ↦ rw e (λ h. cc, λ h. cc)
      | inr e ↦ elim (Bool-cases (expr == "$")) [
        | inl root ↦ rw (e, root) (λ h. cc, λ h. cc)
        | inr path ↦
            rw (e, path) (traverse-IsReturned (size (drop 2 expr)) (drop 2 expr) doc (omega arith))
      ]
    ]
