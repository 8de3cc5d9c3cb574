-- ===== src/Http/Check/Holds.antt =====
-- internal/matchers/http.go: the conditions of an assert block, as a predicate on the response.
use vigie.Prelude.{
  String, ◌≡◌, ◌⊎◌, ◌↔◌, inl, inr, refl, Bool, true, false, ◌&&◌, ◌||◌, not, Option, none, some,
  List, [], ◌∷◌, ◌==◌, All, Bool-cases, if◌then◌else◌, ==→≡, ==_self,
}
use vigie.Prelude.Texts.{includes}
use vigie.Prelude.Int.{is_zero, eq_int}
use vigie.Value.{Value, Fields, end, field}
use vigie.Http.JsonPath.{Walk, found, not_found, failed, eval_json_path}
use vigie.Http.Types.{
  HttpAssertBlock, Message, Reply, got, refused, Response, pattern_mismatch, header_mismatch,
  path_mismatch,
}
use vigie.Http.Check.{
  Library, Checked, passed, rejected, panicked, out_of_fuel, and_then, header_get, is_pattern,
  pattern_of, match_header, match_pattern, check_header, check_http_headers, compare_walk,
  check_paths, check_parsed, check_json_path, check_status, check_body, check_http_assertions,
}

-- A header is the text that is expected, or matches the pattern between `~/` and `/`.
abbrev pub Matches : Library → (expected value : String) → Type 0
Matches lib expected value =
    ((is_pattern expected ≡ false) × (value ≡ expected))
    ⊎ ((is_pattern expected ≡ true)
        × ((pattern : String) × (matches : String → Bool) × (pattern_of expected ≡ some pattern)
            × (lib.compile pattern ≡ got matches)
            × (matches value ≡ true)))

abbrev pub HeadersMatch : Library → List (String × List String) → List (String × String) → Type 0
HeadersMatch lib actual =
    All (λ (entry : String × String). Matches lib entry.1 (header_get lib entry.0 actual))

-- Each expression finds a value that prints as the expected one does.
abbrev pub PathsMatch : Library → Value → Fields → Type 0
PathsMatch lib doc end = Unit
PathsMatch lib doc (field expr expected paths) =
    ((v : Value) × (eval_json_path expr doc ≡ found v)
      × (lib.print_value v ≡ lib.print_value expected))
    × PathsMatch lib doc paths

abbrev pub BodyMatches : Library → (body : String) → Fields → Type 0
BodyMatches lib body end = Unit
BodyMatches lib body (field expr expected paths) =
    (doc : Value) × (lib.unmarshal body ≡ got doc) × PathsMatch lib doc (field expr expected paths)

-- A status of 0 and an empty text ask for nothing.
abbrev pub Satisfies : Library → Response → Option HttpAssertBlock → Type 0
Satisfies lib resp none = Unit
Satisfies lib resp (some block) =
    ((is_zero block.status || eq_int resp.status block.status) ≡ true)
    × HeadersMatch lib resp.header block.headers
    × ((block.body_contains == "" || includes resp.body block.body_contains) ≡ true)
    × BodyMatches lib resp.body block.json_path

and_then-passed : (c d : Checked) → (and_then c d ≡ passed) ↔ ((c ≡ passed) × (d ≡ passed))
and_then-passed passed d = (λ h. (refl, h), λ h. h.1)
and_then-passed (rejected m) d = (λ h. cc, λ h. cc)
and_then-passed panicked d = (λ h. cc, λ h. cc)
and_then-passed out_of_fuel d = (λ h. cc, λ h. cc)

matched_header :
    (key value pattern : String) (reply : Reply (String → Bool))
    → match_header key value pattern reply ≡ passed
    → (matches : String → Bool) × (reply ≡ got matches) × (matches value ≡ true)
matched_header key value pattern (refused text) h = cc
matched_header key value pattern (got matches) h = elim (Bool-cases (matches value)) [
  | inl e ↦ (matches, refl, e)
  | inr e ↦ let bad : rejected (pattern_mismatch key value pattern) ≡ passed = rw e at h in cc
]

matched_pattern :
    (lib : Library) (key value : String) (pattern : Option String)
    → match_pattern lib key value pattern ≡ passed
    → (text : String) × (matches : String → Bool) × (pattern ≡ some text)
      × (lib.compile text ≡ got matches)
      × (matches value ≡ true)
matched_pattern lib key value none h = cc
matched_pattern lib key value (some text) h =
    let (matches, compiled, e) = matched_header key value text (lib.compile text) h in
    (text, matches, refl, compiled, e)

matched_check :
    (lib : Library) (key expected value : String)
    → check_header lib key expected value ≡ passed
    → Matches lib expected value
unfolding check_header
matched_check lib key expected value h = elim (Bool-cases (is_pattern expected)) [
  | inl shaped ↦
      inr (
        shaped,
        matched_pattern lib key value (pattern_of expected) (rw (check_header, shaped) at h),
      )
  | inr plain ↦ elim (Bool-cases (value == expected)) [
    | inl e ↦ inl (plain, ==→≡ value expected e)
    | inr e ↦
        let bad : rejected (header_mismatch key value expected) ≡ passed =
          rw (check_header, plain, e) at h in
        cc
  ]
]

checked_match :
    (lib : Library) (key expected value : String)
    → Matches lib expected value
    → check_header lib key expected value ≡ passed
unfolding check_header
checked_match lib key expected value (inl (plain, e)) = rw (plain, e, ==_self expected) refl
checked_match lib key expected value (inr (shaped, (text, matches, p, c, v))) =
    rw (shaped, p, c, v) refl

headers-passed :
    (lib : Library) (expected : List (String × String)) (actual : List (String × List String))
    → (check_http_headers lib expected actual ≡ passed) ↔ HeadersMatch lib actual expected
unfolding check_http_headers
headers-passed lib [] actual = (λ h. tt, λ h. refl)
headers-passed lib ((key, value) ∷ rest) actual =
    let first = check_header lib key value (header_get lib key actual) in
    let parts = and_then-passed first (check_http_headers lib rest actual) in
    let later = headers-passed lib rest actual in
    (
      λ h. (
        matched_check lib key value (header_get lib key actual) (parts.0 h).0,
        later.0 (parts.0 h).1,
      ),
      λ h. parts.1 (checked_match lib key value (header_get lib key actual) h.0, later.1 h.1),
    )

found_walk :
    (lib : Library) (expr : String) (expected : Value) (walk : Walk)
    → compare_walk lib expr expected walk ≡ passed
    → (v : Value) × (walk ≡ found v) × (lib.print_value v ≡ lib.print_value expected)
found_walk lib expr expected (found v) h =
    elim (Bool-cases (lib.print_value v == lib.print_value expected)) [
      | inl e ↦ (v, refl, ==→≡ (lib.print_value v) (lib.print_value expected) e)
      | inr e ↦
          let bad : rejected (path_mismatch expr (lib.print_value v) (lib.print_value expected))
              ≡ passed =
            rw e at h in
          cc
    ]
found_walk lib expr expected not_found h = cc
found_walk lib expr expected (failed e) h = cc
found_walk lib expr expected Walk.panicked h = cc
found_walk lib expr expected Walk.out_of_fuel h = cc

walk_found :
    (lib : Library) (expr : String) (expected v : Value) (walk : Walk)
    → walk ≡ found v
    → lib.print_value v ≡ lib.print_value expected
    → compare_walk lib expr expected walk ≡ passed
walk_found lib expr expected v walk e p = rw (e, p, ==_self (lib.print_value expected)) refl

paths-passed :
    (lib : Library) (paths : Fields) (doc : Value)
    → (check_paths lib paths doc ≡ passed) ↔ PathsMatch lib doc paths
unfolding check_paths
paths-passed lib end doc = (λ h. tt, λ h. refl)
paths-passed lib (field expr expected paths) doc =
    let walk = eval_json_path expr doc in
    let parts = and_then-passed (compare_walk lib expr expected walk) (check_paths lib paths doc) in
    let later = paths-passed lib paths doc in
    (
      λ h. (found_walk lib expr expected walk (parts.0 h).0, later.0 (parts.0 h).1),
      λ h. let (v, e, p) = h.0 in parts.1 (walk_found lib expr expected v walk e p, later.1 h.1),
    )

parsed_paths :
    (lib : Library) (paths : Fields) (reply : Reply Value)
    → check_parsed lib paths reply ≡ passed
    → (doc : Value) × (reply ≡ got doc) × PathsMatch lib doc paths
unfolding check_parsed
parsed_paths lib paths (refused text) h = cc
parsed_paths lib paths (got doc) h = (doc, refl, (paths-passed lib paths doc).0 h)

json_path-passed :
    (lib : Library) (paths : Fields) (body : String)
    → (check_json_path lib paths body ≡ passed) ↔ BodyMatches lib body paths
unfolding check_json_path check_parsed
json_path-passed lib end body = (λ h. tt, λ h. refl)
json_path-passed lib (field expr expected paths) body = (
  parsed_paths lib (field expr expected paths) (lib.unmarshal body),
  λ (doc, e, h). rw e ((paths-passed lib (field expr expected paths) doc).1 h),
)

guard-passed :
    (a b : Bool) (m : Message)
    → ((if not a && not b then rejected m else passed) ≡ passed) ↔ ((a || b) ≡ true)
guard-passed true b m = (λ h. refl, λ h. refl)
guard-passed false true m = (λ h. refl, λ h. refl)
guard-passed false false m = (λ h. cc, λ h. cc)

-- A response passes the check exactly where it satisfies the assert block: the status, each header, the
-- text that the body contains, and each jsonPath expression. The code of the library is any.
pub check_http_assertions-passed :
    (lib : Library) (block : Option HttpAssertBlock) (resp : Response)
    → (check_http_assertions lib block resp ≡ passed) ↔ Satisfies lib resp block
unfolding check_http_assertions
check_http_assertions-passed lib none resp = (λ h. tt, λ h. refl)
check_http_assertions-passed lib (some block) resp =
    let status = check_status block resp in
    let headers = check_http_headers lib block.headers resp.header in
    let body = check_body block resp in
    let paths = check_json_path lib block.json_path resp.body in
    let first = and_then-passed status (and_then headers (and_then body paths)) in
    let second = and_then-passed headers (and_then body paths) in
    let third = and_then-passed body paths in
    let for_status = guard-passed (is_zero block.status) (eq_int resp.status block.status) _ in
    let for_headers = headers-passed lib block.headers resp.header in
    let for_body =
      guard-passed (block.body_contains == "") (includes resp.body block.body_contains) _ in
    let for_paths = json_path-passed lib block.json_path resp.body in
    (
      λ h.
          let (s, rest) = first.0 h in
          let (k, more) = second.0 rest in
          let (b, p) = third.0 more in
          (for_status.0 s, for_headers.0 k, for_body.0 b, for_paths.0 p),
      λ (s, k, b, p).
          first.1
            (for_status.1 s, second.1 (for_headers.1 k, third.1 (for_body.1 b, for_paths.1 p))),
    )
