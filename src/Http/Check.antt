-- ===== src/Http/Check.antt =====
-- internal/matchers/http.go: the conditions that a response is checked against.
pub mod Holds
pub mod Panics
use vigie.Prelude.{
  String, ℕ, Bool, true, false, ◌&&◌, ◌||◌, not, ◌-◌, Option, none, some, List, [], ◌∷◌, ◌==◌, ltb,
  leb, if◌then◌else◌,
}
use vigie.Prelude.Texts.{append, size, take, drop, has_prefix, has_suffix, includes}
use vigie.Prelude.Int.{ℤ, is_zero, eq_int}
use vigie.Value.{Value, Fields, end, field}
use vigie.Http.JsonPath.{Walk, found, not_found, failed, eval_json_path}
use vigie.Http.Types.{
  HttpAssertBlock, Message, Reply, got, refused, Response, status_mismatch, invalid_pattern,
  pattern_mismatch, header_mismatch, body_mismatch, body_not_json, path_error, path_not_found,
  path_mismatch,
}

-- What the code calls of the standard library: the canonical form of a header's name,
-- regexp.Compile with MatchString, json.Unmarshal, and the verb %v.
pub record Library : Type 0 where
  pub canonical : String → String
  pub compile : (pattern : String) → Reply (String → Bool)
  pub unmarshal : String → Reply Value
  pub print_value : Value → String

pub data Checked : Type 0 where
  passed : Checked
  rejected : Message → Checked
  panicked : Checked
  -- the model's own: it does not come up
  out_of_fuel : Checked

abbrev pub and_then : Checked → Checked → Checked
and_then passed next = next
and_then c next = c

-- By bytes: the characters of a body are its bytes.
unfoldable pub truncate : String → (max_len : ℕ) → String
unfolding take
truncate s max_len = if leb (size s) max_len then s else append (take max_len s) "..."

abbrev pub first_of : List String → String
first_of [] = ""
first_of (v ∷ vals) = v

-- Get of an http.Header.
unfoldable pub header_get : Library → (key : String) → List (String × List String) → String
header_get lib key [] = ""
header_get lib key ((name, vals) ∷ rest) =
    let later = header_get lib key rest in
    if name == lib.canonical key then first_of vals else later

unfoldable pub is_pattern : String → Bool
unfolding has_prefix has_suffix
is_pattern expected = has_prefix expected "~/" && has_suffix expected "/"

-- expectedVal[2 : len(expectedVal)-1]: `none` where the first bound is above the second.
unfoldable pub pattern_of : String → Option String
unfolding take drop
pattern_of expected =
    if ltb (size expected) 3 then none else some (drop 2 (take (size expected - 1) expected))

abbrev pub match_header : (key value pattern : String) → Reply (String → Bool) → Checked
match_header key value pattern (refused text) = rejected (invalid_pattern key pattern text)
match_header key value pattern (got matches) =
    if matches value then passed else rejected (pattern_mismatch key value pattern)

abbrev pub match_pattern : Library → (key value : String) → Option String → Checked
match_pattern lib key value none = panicked
match_pattern lib key value (some pattern) = match_header key value pattern (lib.compile pattern)

unfoldable pub check_header : Library → (key expected actual : String) → Checked
unfolding is_pattern pattern_of
check_header lib key expected actual =
    if is_pattern expected
    then match_pattern lib key actual (pattern_of expected)
    else if actual == expected
    then passed
    else rejected (header_mismatch key actual expected)

unfoldable pub check_http_headers :
    Library → (expected : List (String × String)) (actual : List (String × List String)) → Checked
unfolding check_header header_get
check_http_headers lib [] actual = passed
check_http_headers lib ((key, expected) ∷ rest) actual =
    and_then (check_header lib key expected (header_get lib key actual))
      (check_http_headers lib rest actual)

abbrev pub compare_walk : Library → (expr : String) (expected : Value) → Walk → Checked
compare_walk lib expr expected (found v) =
    if lib.print_value v == lib.print_value expected
    then passed
    else rejected (path_mismatch expr (lib.print_value v) (lib.print_value expected))
compare_walk lib expr expected not_found = rejected (path_not_found expr)
compare_walk lib expr expected (failed e) = rejected (path_error expr e)
compare_walk lib expr expected Walk.panicked = panicked
compare_walk lib expr expected Walk.out_of_fuel = out_of_fuel

unfoldable pub check_paths : Library → Fields → Value → Checked
unfolding eval_json_path
check_paths lib end doc = passed
check_paths lib (field expr expected paths) doc =
    and_then (compare_walk lib expr expected (eval_json_path expr doc)) (check_paths lib paths doc)

abbrev pub check_parsed : Library → Fields → Reply Value → Checked
unfolding check_paths
check_parsed lib paths (refused text) = rejected (body_not_json text)
check_parsed lib paths (got doc) = check_paths lib paths doc

-- Where no path is asked for, the body is not parsed.
unfoldable pub check_json_path : Library → Fields → (body : String) → Checked
unfolding check_paths
check_json_path lib end body = passed
check_json_path lib (field expr expected paths) body =
    check_parsed lib (field expr expected paths) (lib.unmarshal body)

abbrev pub check_status : HttpAssertBlock → Response → Checked
unfolding eq_int is_zero truncate
check_status block resp =
    if not (is_zero block.status) && not (eq_int resp.status block.status)
    then rejected (status_mismatch resp.status block.status (truncate resp.body 200))
    else passed

abbrev pub check_body : HttpAssertBlock → Response → Checked
unfolding includes truncate
check_body block resp =
    if not (block.body_contains == "") && not (includes resp.body block.body_contains)
    then rejected (body_mismatch block.body_contains (truncate resp.body 200))
    else passed

unfoldable pub check_http_assertions : Library → Option HttpAssertBlock → Response → Checked
unfolding check_status check_body check_http_headers check_json_path
check_http_assertions lib none resp = passed
check_http_assertions lib (some block) resp = and_then (check_status block resp) (
    and_then (check_http_headers lib block.headers resp.header)
      (and_then (check_body block resp) (check_json_path lib block.json_path resp.body)))
