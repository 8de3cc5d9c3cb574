-- ===== src/Path.antt =====
-- internal/path/path.go: a path expression is parsed into segments and followed into a document.
-- The scan by byte is a scan by character here: all that it looks for is ASCII, and no byte of a longer
-- character is. A scan that starts at an index is a scan of the rest of the text.
pub mod Scan
pub mod Printed
pub mod Samples
use Prim.Native.Char.{Char, code}
use Prim.Native.String
use vigie.Prelude.{
  String, ℕ, zero, suc, ◌+◌, ◌-◌, ◌*◌, Bool, true, false, not, ◌||◌, ◌&&◌, Option, none, some, List,
  [], ◌∷◌, ◌++◌, ◌==◌, eqb, ltb, leb, if◌then◌else◌,
}
use vigie.Prelude.Texts.{append, size}
use vigie.Prelude.Int.{ℤ, pos, negsuc}
use vigie.Value.{Value, null, slice, object, Items, nil, cons, Fields, get as get_key}

-- index is -1 for a key lookup
pub record Segment : Type 0 where
  pub key : String
  pub index : ℤ

abbrev pub key_segment : String → Segment
key_segment key = record { key = key; index = negsuc 0 }

abbrev pub index_segment : ℕ → Segment
index_segment n = record { key = ""; index = pos n }

pub data PathError : Type 0 where
  unmatched_bracket : PathError
  unterminated_key : PathError
  expected_bracket : PathError
  non_integer_index : (text : String) → PathError
  negative_index : (text : String) → PathError
  -- the model's own: the loop never gets there
  out_of_fuel : PathError

pub data Parsed : Type 0 where
  ok : List Segment → Parsed
  err : PathError → Parsed

-- strings.IndexByte: what is before the first such character, and what is behind it.
unfoldable pub cut : (at : ℕ) → String → Option (String × String)
cut at String.[] = none
cut at (String.◌∷◌ c s) =
    let rest = cut at s in
    if eqb (code c) at
    then some ("", s)
    else elim rest [ none ↦ none | some (before, after) ↦ some (String.◌∷◌ c before, after) ]

-- unicode.IsSpace
abbrev pub is_space : ℕ → Bool
is_space c =
    leb 9 c && leb c 13
    || eqb c 32
    || eqb c 133
    || eqb c 160
    || eqb c 5760
    || leb 8192 c && leb c 8202
    || eqb c 8232
    || eqb c 8233
    || eqb c 8239
    || eqb c 8287
    || eqb c 12288

abbrev pub trim_left : String → String
trim_left String.[] = ""
trim_left (String.◌∷◌ c s) =
    let rest = trim_left s in if is_space (code c) then rest else String.◌∷◌ c s

abbrev pub all_space : String → Bool
all_space String.[] = true
all_space (String.◌∷◌ c s) = is_space (code c) && all_space s

abbrev pub trim_right : String → String
trim_right String.[] = ""
trim_right (String.◌∷◌ c s) =
    let rest = trim_right s in if all_space (String.◌∷◌ c s) then "" else String.◌∷◌ c rest

-- strings.TrimSpace
abbrev pub trim_space : String → String
trim_space s = trim_right (trim_left s)

-- The digits of a text read on from a number: `none` at anything else.
abbrev pub digits : String → ℕ → Option ℕ
digits String.[] n = some n
digits (String.◌∷◌ c s) n =
    let rest = digits s (n * 10 + (code c - 48)) in
    if leb 48 (code c) && leb (code c) 57 then rest else none

abbrev pub natural : String → Option ℕ
natural String.[] = none
natural (String.◌∷◌ c s) = digits (String.◌∷◌ c s) 0

abbrev pub largest_int : ℕ
largest_int = 9223372036854775807

abbrev pub positive : Option ℕ → Option ℤ
positive none = none
positive (some n) = if leb n largest_int then some (pos n) else none

abbrev pub negate : ℕ → ℤ
negate zero = pos 0
negate (suc n) = negsuc n

abbrev pub negative : Option ℕ → Option ℤ
negative none = none
negative (some n) = if leb n (suc largest_int) then some (negate n) else none

-- strconv.Atoi, for a 64-bit int: `none` is an error.
abbrev pub atoi : String → Option ℤ
atoi String.[] = none
atoi (String.◌∷◌ c s) =
    if eqb (code c) 43
    then positive (natural s)
    else if eqb (code c) 45
    then negative (natural s)
    else positive (natural (String.◌∷◌ c s))

-- flushKey
abbrev pub flush_key : String → List Segment → List Segment
flush_key String.[] segments = segments
flush_key (String.◌∷◌ c s) segments = segments ++ key_segment (String.◌∷◌ c s) ∷ []

-- What follows '[' with no quote: the text of the index, and the rest.
abbrev pub read_index : String → (ℕ → Parsed) → Parsed
read_index text go = elim (atoi (trim_space text)) [
  | none ↦ err (non_integer_index text)
  | some (negsuc n) ↦ err (negative_index text)
  | some (pos n) ↦ go n
]

-- The loop of parse: what is left of the text, the segments, and the key that is being built.
unfoldable pub scan : (fuel : ℕ) → String → List Segment → (key : String) → Parsed
unfolding cut
scan fuel String.[] segments key = ok (flush_key key segments)
scan zero (String.◌∷◌ c rest) segments key = err out_of_fuel
scan (suc fuel) (String.◌∷◌ c rest) segments key =
    if eqb (code c) 46
    then scan fuel rest (flush_key key segments) ""
    else if eqb (code c) 91
    then elim rest [
      | String.[] ↦ err unmatched_bracket
      | String.◌∷◌ quote text ↦
          if eqb (code quote) 34 || eqb (code quote) 39
          then elim (cut (code quote) text) [
            | none ↦ err unterminated_key
            | some (quoted, after) ↦ elim after [
              | String.[] ↦ err expected_bracket
              | String.◌∷◌ close more ↦
                  if eqb (code close) 93
                  then scan fuel more (flush_key key segments ++ key_segment quoted ∷ []) ""
                  else err expected_bracket
            ]
          ]
          else elim (cut 93 (String.◌∷◌ quote text)) [
            | none ↦ err unmatched_bracket
            | some (text', more) ↦
                read_index text'
                  (λ n. scan fuel more (flush_key key segments ++ index_segment n ∷ []) "")
          ]
    ]
    else scan fuel rest segments (append key (String.◌∷◌ c String.[]))

unfoldable pub parse : String → Parsed
unfolding scan
parse expr = scan (size expr) expr [] ""

-- What Get returns: a value, no value, or an error.
pub data Answer : Type 0 where
  found : Value → Answer
  not_found : Answer
  failed : PathError → Answer

-- slice[n], where n is in the range of the slice
unfoldable pub nth : ℕ → Items → Option Value
nth n nil = none
nth zero (cons v items) = some v
nth (suc n) (cons v items) = nth n items

-- One round of the loop of Get.
unfoldable pub step_at : ℤ → (key : String) → Value → Option Value
unfolding nth get_key
step_at (pos n) key (slice items) = nth n items
step_at (negsuc n) key (object m) = get_key key m
step_at _ _ _ = none

unfoldable pub step : Segment → Value → Option Value
unfolding step_at
step seg doc = step_at seg.index seg.key doc

unfoldable pub follow : List Segment → Value → Option Value
unfolding step
follow [] doc = some doc
follow (seg ∷ segments) doc = elim (step seg doc) [ none ↦ none | some v ↦ follow segments v ]

abbrev pub answer : Option Value → Answer
answer none = not_found
answer (some v) = found v

unfoldable pub get_parsed : Parsed → Value → Answer
unfolding follow
get_parsed (err e) doc = failed e
get_parsed (ok segments) doc = answer (follow segments doc)

unfoldable pub get : Value → (expr : String) → Answer
unfolding get_parsed parse
get doc expr = if expr == "" || expr == "." then found doc else get_parsed (parse expr) doc
