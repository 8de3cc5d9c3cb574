-- ===== src/Http/Exchange.antt =====
-- internal/matchers/http.go: one request and its answer, and the retry policy.
use vigie.Prelude.{
  String, ℕ, Bool, true, false, Option, none, some, List, [], ◌∷◌, ◌==◌, if◌then◌else◌,
}
use vigie.Prelude.Int.{ℤ, pos}
use vigie.Value.{Value, null, bool}
use vigie.Http.Types.{
  Duration, HttpRetries, HttpAssert, Outcome, ok, err, Reply, Response, Request, invalid_interval,
  marshal_body, create_request, execute_request, read_body, cel_error, until_not_bool, ◌>>=◌,
  answer,
}
use vigie.Http.Target.{Remote, Event, sent}
use vigie.Http.Check.{Library}

-- How the Do of a client ends, with the body read.
pub data Exchange : Type 0 where
  answered : Response → Exchange
  not_answered : (text : String) → Exchange
  not_read : (text : String) → Exchange

-- What CEL sees.
pub record Bindings : Type 0 where
  pub status : ℤ
  pub body : String
  pub headers : List (String × String)

-- url.JoinPath, json.Marshal, http.NewRequest with the Host of the request it makes, the answer to an
-- attempt, and the package of CEL.
pub record Network : Type 0 where
  pub join_path : (base path : String) → Reply String
  pub marshal : Value → Reply String
  pub new_request : (method url : String) → Reply String
  pub do_request : (attempt : ℕ) → Request → Exchange
  pub eval_cel : (expr : String) → Bindings → Reply Value

pub record Env : Type 0 where
  pub remote : Remote
  pub library : Library
  pub network : Network

-- (count, interval, until)
abbrev pub Retries : Type 0
Retries = ℤ × Duration × String

abbrev pub one_second : Duration
one_second = pos 1_000_000_000

abbrev parse_interval : Remote → String → Outcome Duration
parse_interval remote interval =
    if interval == ""
    then ok one_second
    else answer (invalid_interval interval) (remote.parse_duration interval)

unfoldable pub parse_http_retries : Remote → Option HttpRetries → Outcome Retries
parse_http_retries remote none = ok (pos 0, pos 0, "")
parse_http_retries remote (some retries) = do
  interval ← parse_interval remote retries.interval
  ok (retries.count, interval, retries.until)

-- req.Header.Set
abbrev pub set_header : String → String → List (String × String) → List (String × String)
set_header key val [] = (key, val) ∷ []
set_header key val ((k, v) ∷ rest) =
    let later = set_header key val rest in if k == key then (key, val) ∷ rest else (k, v) ∷ later

abbrev pub set_headers :
    Library → List (String × String) → List (String × String) → List (String × String)
set_headers lib [] done = done
set_headers lib ((key, val) ∷ rest) done =
    set_headers lib rest (set_header (lib.canonical key) val done)

abbrev is_nil : Value → Bool
is_nil null = true
is_nil v = false

abbrev marshal_body_of : Network → Value → Outcome (Option String)
marshal_body_of network body =
    if is_nil body
    then ok none
    else (do text ← answer marshal_body (network.marshal body); ok (some text))

-- The request of doHTTPRequest.
unfoldable pub build_request : Env → (url : String) → HttpAssert → Duration → Outcome Request
build_request env url spec timeout = do
  let method = if spec.method == "" then "GET" else spec.method
  body ← marshal_body_of env.network spec.body
  host ← answer create_request (env.network.new_request method url)
  ok (record {
    method = method;
    url = url;
    body = body;
    headers = set_headers env.library spec.headers [];
    host = if spec.host == "" then host else spec.host;
    timeout = timeout;
  })

abbrev pub response_of : Exchange → Outcome Response
response_of (answered resp) = ok resp
response_of (not_answered text) = err (execute_request text)
response_of (not_read text) = err (read_body text)

abbrev pub send_request : Network → (attempt : ℕ) → Outcome Request → List Event × Outcome Response
send_request network attempt (err e) = ([], err e)
send_request network attempt (ok request) =
    (sent request ∷ [], response_of (network.do_request attempt request))

unfoldable pub do_http_request :
    Env → (attempt : ℕ) (url : String) → HttpAssert → Duration → List Event × Outcome Response
unfolding build_request
do_http_request env attempt url spec timeout =
    send_request env.network attempt (build_request env url spec timeout)

-- The first value of each header that has one.
abbrev pub flat_headers : List (String × List String) → List (String × String)
flat_headers [] = []
flat_headers ((key, []) ∷ rest) = flat_headers rest
flat_headers ((key, v ∷ vals) ∷ rest) = (key, v) ∷ flat_headers rest

abbrev until_bool : (expr : String) → Value → Outcome Bool
until_bool expr (bool b) = ok b
until_bool expr v = err (until_not_bool expr)

unfoldable pub eval_retry_until_cel : Network → (expr : String) → Response → Outcome Bool
eval_retry_until_cel network expr resp = do
  result ← answer cel_error (
      network.eval_cel expr
        (record { status = resp.status; body = resp.body; headers = flat_headers resp.header }))
  until_bool expr result
