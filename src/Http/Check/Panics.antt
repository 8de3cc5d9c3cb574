-- ===== src/Http/Check/Panics.antt =====
-- internal/matchers/http.go: where the check of a response panics.
use vigie.Prelude.{
  String, ◌≤◌, ◌<◌, ◌≡◌, ◌≢◌, ◌↔◌, refl, Bool, true, false, Option, none, some, List, [], ◌∷◌, ◌==◌,
  All, Bool-cases, if◌then◌else◌, inl, inr, ltb, arith,
}
use vigie.Prelude.Texts.{size}
use vigie.Value.{Value, Fields, end, field}
use vigie.Http.JsonPath.{Walk, found, not_found, failed, eval_json_path}
use vigie.Http.JsonPath.Ends.{IsReturned, eval_json_path-IsReturned}
use vigie.Http.Types.{HttpAssertBlock, Message, Reply, got, refused, Response}
use vigie.Http.Check.{
  Library, Checked, passed, rejected, panicked, out_of_fuel, and_then, header_get, is_pattern,
  pattern_of, match_header, check_header, check_http_headers, compare_walk, check_paths,
  check_parsed, check_json_path, check_status, check_body, check_http_assertions,
}

abbrev pub IsEnded : Checked → Type 0
IsEnded c = (c ≢ panicked) × (c ≢ out_of_fuel)

if-IsEnded : (b : Bool) (m : Message) → IsEnded (if b then passed else rejected m)
if-IsEnded true m = (λ h. cc, λ h. cc)
if-IsEnded false m = (λ h. cc, λ h. cc)

guard-IsEnded : (b : Bool) (m : Message) → IsEnded (if b then rejected m else passed)
guard-IsEnded true m = (λ h. cc, λ h. cc)
guard-IsEnded false m = (λ h. cc, λ h. cc)

and_then-IsEnded : (c d : Checked) → IsEnded c → IsEnded d → IsEnded (and_then c d)
and_then-IsEnded passed d h k = k
and_then-IsEnded (rejected m) d h k = h
and_then-IsEnded panicked d h k = h
and_then-IsEnded out_of_fuel d h k = h

match_header-IsEnded :
    (key value pattern : String) (reply : Reply (String → Bool))
    → IsEnded (match_header key value pattern reply)
match_header-IsEnded key value pattern (refused text) = (λ h. cc, λ h. cc)
match_header-IsEnded key value pattern (got matches) = if-IsEnded (matches value) _

-- The check of a header panics exactly where the text that is expected has the shape of a pattern,
-- `~/` at its start and `/` at its end, and is shorter than the three characters of the two: the text
-- `~/`. It is then sliced from 2 to 1.
pub check_header-panics :
    (lib : Library) (key expected value : String)
    → (check_header lib key expected value ≡ panicked)
      ↔ ((is_pattern expected ≡ true) × (size expected < 3))
unfolding check_header pattern_of
check_header-panics lib key expected value = elim (Bool-cases (is_pattern expected)) [
  | inl shaped ↦ elim (Bool-cases (ltb (size expected) 3)) [
    | inl short ↦ rw (check_header, shaped, short) (λ h. (refl, ground arith), λ h. refl)
    | inr long ↦
        rw (check_header, shaped, long)
          (
            λ h. elim ((match_header-IsEnded key value _ (lib.compile _)).0 h) [ ],
            λ h. (let few = h.1 in ground arith),
          )
  ]
  | inr plain ↦
      rw (check_header, plain) (λ h. elim ((if-IsEnded (value == expected) _).0 h) [ ], λ h. cc)
]

-- A pattern has room for the characters around it.
abbrev pub IsRoomy : String → Type 0
IsRoomy expected = is_pattern expected ≡ true → 3 ≤ size expected

check_header-IsEnded :
    (lib : Library) (key expected value : String)
    → IsRoomy expected
    → IsEnded (check_header lib key expected value)
unfolding check_header pattern_of
check_header-IsEnded lib key expected value h = elim (Bool-cases (is_pattern expected)) [
  | inl shaped ↦
      let long : ltb (size expected) 3 ≡ false = (let room = h shaped in ground arith) in
      rw (shaped, long) (match_header-IsEnded key value _ (lib.compile _))
  | inr plain ↦ rw plain (if-IsEnded (value == expected) _)
]

headers-IsEnded :
    (lib : Library) (expected : List (String × String)) (actual : List (String × List String))
    → All (λ (entry : String × String). IsRoomy entry.1) expected
    → IsEnded (check_http_headers lib expected actual)
unfolding check_http_headers
headers-IsEnded lib [] actual h = (λ e. cc, λ e. cc)
headers-IsEnded lib ((key, value) ∷ rest) actual (h, hs) =
    and_then-IsEnded (check_header lib key value (header_get lib key actual))
      (check_http_headers lib rest actual)
      (check_header-IsEnded lib key value (header_get lib key actual) h)
      (headers-IsEnded lib rest actual hs)

compare_walk-IsEnded :
    (lib : Library) (expr : String) (expected : Value) (walk : Walk)
    → IsReturned walk
    → IsEnded (compare_walk lib expr expected walk)
compare_walk-IsEnded lib expr expected (found v) h =
    if-IsEnded (lib.print_value v == lib.print_value expected) _
compare_walk-IsEnded lib expr expected not_found h = (λ e. cc, λ e. cc)
compare_walk-IsEnded lib expr expected (failed w) h = (λ e. cc, λ e. cc)
compare_walk-IsEnded lib expr expected Walk.panicked h = elim (h.0 refl) [ ]
compare_walk-IsEnded lib expr expected Walk.out_of_fuel h = elim (h.1 refl) [ ]

paths-IsEnded : (lib : Library) (paths : Fields) (doc : Value) → IsEnded (check_paths lib paths doc)
unfolding check_paths
paths-IsEnded lib end doc = (λ e. cc, λ e. cc)
paths-IsEnded lib (field expr expected paths) doc =
    and_then-IsEnded (compare_walk lib expr expected (eval_json_path expr doc))
      (check_paths lib paths doc)
      (compare_walk-IsEnded lib expr expected (eval_json_path expr doc)
        (eval_json_path-IsReturned expr doc))
      (paths-IsEnded lib paths doc)

parsed-IsEnded :
    (lib : Library) (paths : Fields) (reply : Reply Value) → IsEnded (check_parsed lib paths reply)
unfolding check_parsed
parsed-IsEnded lib paths (refused text) = (λ e. cc, λ e. cc)
parsed-IsEnded lib paths (got doc) = paths-IsEnded lib paths doc

json_path-IsEnded :
    (lib : Library) (paths : Fields) (body : String) → IsEnded (check_json_path lib paths body)
unfolding check_json_path check_parsed
json_path-IsEnded lib end body = (λ e. cc, λ e. cc)
json_path-IsEnded lib (field expr expected paths) body =
    parsed-IsEnded lib (field expr expected paths) (lib.unmarshal body)

-- The headers that a block expects.
abbrev pub expected_headers : Option HttpAssertBlock → List (String × String)
expected_headers none = []
expected_headers (some block) = block.headers

-- Where each header that the block expects in the shape of a pattern has at least the three characters
-- around it, the check of a response neither panics nor goes on for ever.
pub check_http_assertions-IsEnded :
    (lib : Library) (block : Option HttpAssertBlock) (resp : Response)
    → All (λ (entry : String × String). IsRoomy entry.1) (expected_headers block)
    → IsEnded (check_http_assertions lib block resp)
unfolding check_http_assertions
check_http_assertions-IsEnded lib none resp h = (λ e. cc, λ e. cc)
check_http_assertions-IsEnded lib (some block) resp h =
    let headers = check_http_headers lib block.headers resp.header in
    let paths = check_json_path lib block.json_path resp.body in
    and_then-IsEnded (check_status block resp)
      (and_then headers (and_then (check_body block resp) paths)) (guard-IsEnded _ _)
      (and_then-IsEnded headers (and_then (check_body block resp) paths)
        (headers-IsEnded lib block.headers resp.header h)
        (and_then-IsEnded (check_body block resp) paths (guard-IsEnded _ _)
          (json_path-IsEnded lib block.json_path resp.body)))
