-- ===== src/Http/JsonPath.antt =====
-- internal/matchers/http.go: a jsonPath expression is followed into the parsed body of a response.
-- A text is the list of its characters: all that the code looks for is ASCII.
pub mod Ends
pub mod Written
pub mod Agrees
pub mod Samples
use Prim.Native.Char.{code}
use vigie.Prelude.{
  String, ℕ, zero, suc, ◌+◌, ◌-◌, ◌*◌, Bool, true, false, not, ◌||◌, ◌&&◌, Option, none, some, ◌==◌,
  eqb, ltb, leb, if◌then◌else◌,
}
use vigie.Prelude.Texts.{size, index_of, take, drop, has_prefix}
use vigie.Prelude.Int.{ℤ, pos, negsuc, leb_int, is_negative}
use vigie.Value.{Value, slice, object, Items, nil, cons, get}
use vigie.Path.{is_space, positive, negative, nth}

pub data WalkError : Type 0 where
  bad_start : WalkError
  -- with the error of Sscanf
  not_an_index : (segment : String) → WalkError
  out_of_bounds : (idx : ℤ) (len : ℕ) → WalkError

-- What evalJSONPath returns: a value, no value, or an error.
pub data Walk : Type 0 where
  found : Value → Walk
  not_found : Walk
  failed : WalkError → Walk
  -- an index outside a slice
  panicked : Walk
  -- the model's own: the recursion never gets there
  out_of_fuel : Walk

abbrev pub is_digit : ℕ → Bool
is_digit c = leb 48 c && leb c 57

-- SkipSpace of fmt's scanner: a newline is an error.
abbrev pub skip_space : String → Option String
skip_space String.[] = some String.[]
skip_space (String.◌∷◌ c s) =
    let rest = skip_space s in
    if eqb (code c) 10 then none else if is_space (code c) then rest else some (String.◌∷◌ c s)

-- The digits that a text begins with, read on from a number. What follows them is left unread.
abbrev pub leading_digits : String → ℕ → ℕ
leading_digits String.[] n = n
leading_digits (String.◌∷◌ c s) n =
    let rest = leading_digits s (n * 10 + (code c - 48)) in if is_digit (code c) then rest else n

abbrev pub leading_number : String → Option ℕ
leading_number String.[] = none
leading_number (String.◌∷◌ c s) =
    if is_digit (code c) then some (leading_digits (String.◌∷◌ c s) 0) else none

abbrev pub signed_number : String → Option ℤ
signed_number String.[] = none
signed_number (String.◌∷◌ c s) =
    if eqb (code c) 43
    then positive (leading_number s)
    else if eqb (code c) 45
    then negative (leading_number s)
    else positive (leading_number (String.◌∷◌ c s))

-- fmt.Sscanf(s, "%d", &idx): `none` is an error.
unfoldable pub parse_array_index : String → Option ℤ
parse_array_index s = elim (skip_space s) [ none ↦ none | some rest ↦ signed_number rest ]

-- strings.TrimPrefix(s, ".")
abbrev pub trim_dot : String → String
trim_dot String.[] = ""
trim_dot (String.◌∷◌ c s) = if eqb (code c) 46 then s else String.◌∷◌ c s

-- Dot notation: at the first "." or "[".
abbrev pub split_dotted : (dot_idx bracket_idx : Option ℕ) → String → String × String
split_dotted none none path = (path, "")
split_dotted none (some b) path = (take b path, drop b path)
split_dotted (some d) none path = (take d path, drop (suc d) path)
split_dotted (some d) (some b) path =
    if ltb d b then (take d path, drop (suc d) path) else (take b path, drop b path)

-- Bracket notation at the start: path[1:end], and what follows the bracket.
abbrev pub split_bracket : (end : Option ℕ) → String → String × String
split_bracket none path = (path, "")
split_bracket (some end) path = (drop 1 (take end path), trim_dot (drop (suc end) path))

-- (segment, rest)
unfoldable pub split_segment : String → String × String
split_segment path =
    if has_prefix path "["
    then split_bracket (index_of 93 path) path
    else split_dotted (index_of 46 path) (index_of 91 path) path

abbrev pub items_length : Items → ℕ
items_length nil = 0
items_length (cons v items) = suc (items_length items)

-- typed[idx]
abbrev pub index_items : ℤ → Items → Option Value
index_items (pos n) items = nth n items
index_items (negsuc n) items = none

-- What one segment leads to: on to a value, or an end.
pub data Stage : Type 0 where
  into : Value → Stage
  ends : Walk → Stage

unfoldable pub enter_slice : (segment : String) → Items → Stage
unfolding leb_int is_negative nth
enter_slice segment items = elim (parse_array_index segment) [
  | none ↦ ends (failed (not_an_index segment))
  | some idx ↦
      if is_negative idx || leb_int (pos (items_length items)) idx
      then ends (failed (out_of_bounds idx (items_length items)))
      else elim (index_items idx items) [ none ↦ ends panicked | some v ↦ into v ]
]

abbrev pub into_found : Option Value → Stage
into_found none = ends not_found
into_found (some v) = into v

unfoldable pub enter : (segment : String) → Value → Stage
unfolding get enter_slice
enter segment (object m) = into_found (get segment m)
enter segment (slice items) = enter_slice segment items
enter segment doc = if segment == "" then ends (found doc) else ends not_found

unfoldable pub traverse : (fuel : ℕ) → (path : String) → Value → Walk
traverse fuel String.[] doc = found doc
traverse zero (String.◌∷◌ c s) doc = out_of_fuel
traverse (suc fuel) (String.◌∷◌ c s) doc =
    let (segment, rest) = split_segment (String.◌∷◌ c s) in
    elim (enter segment doc) [ into v ↦ traverse fuel rest v | ends walk ↦ walk ]

unfoldable pub eval_json_path : (expr : String) → Value → Walk
unfolding traverse has_prefix drop
eval_json_path expr doc =
    if not (has_prefix expr "$.") && not (expr == "$")
    then failed bad_start
    else if expr == "$"
    then found doc
    else traverse (size (drop 2 expr)) (drop 2 expr) doc
