-- ===== src/Http/Types.antt =====
-- internal/matchers/http.go: the errors and the messages of the http matcher, and what it needs from the
-- cluster and from the network. The structs of the assertion are passed on.
pub use vigie.Dsl.Assertion.{HttpTarget, HttpRetries, HttpAssertBlock, HttpAssert}
use vigie.Prelude.{String, Bool, true, false, Option, none, some, List, ◌≡◌, refl, ◌⊎◌, inl, inr}
use vigie.Prelude.Int.{ℤ}
use vigie.Http.JsonPath.{WalkError}

-- time.Duration, in nanoseconds.
abbrev pub Duration : Type 0
Duration = ℤ

-- The errors of the package, with the texts of the errors that it wraps.
pub data HttpError : Type 0 where
  unknown_via : (via : String) → HttpError
  direct_needs_url : HttpError
  needs_target : (mode : String) → HttpError
  needs_name : (mode : String) → HttpError
  needs_port : (mode : String) → HttpError
  create_client : (text : String) → HttpError
  invalid_timeout : (timeout text : String) → HttpError
  invalid_interval : (interval text : String) → HttpError
  parse_timeout_for_ingress : HttpError → HttpError
  get_ingress : (namespace name text : String) → HttpError
  wait_for_ingress : (namespace name : String) → HttpError → HttpError
  no_ingress_address : (namespace name : String) → HttpError
  poll_ended : (text : String) → HttpError
  no_ingress_ip : HttpError → HttpError
  list_nodes : (text : String) → HttpError
  no_internal_ip : HttpError
  no_nodes : HttpError
  no_addressable_ip : HttpError
  get_service : (namespace name text : String) → HttpError
  not_node_port : (namespace name type : String) → HttpError
  no_ports : (namespace name : String) → HttpError
  first_port_unassigned : (namespace name : String) → HttpError
  port_unassigned : (namespace name : String) (port : ℤ) → HttpError
  no_port_matching : (namespace name : String) (port : ℤ) → HttpError
  resolve_node_port : (namespace name : String) → HttpError → HttpError
  resolve_node_ip : HttpError → HttpError
  unsupported_kind : (kind : String) → HttpError
  no_selector : (namespace name : String) → HttpError
  list_pods : (namespace name text : String) → HttpError
  no_running_pod : (namespace name : String) → HttpError
  resolve_pod : HttpError → HttpError
  listen : (text : String) → HttpError
  close_listener : (text : String) → HttpError
  allocate_port : HttpError → HttpError
  create_round_tripper : (text : String) → HttpError
  parse_server_url : (host text : String) → HttpError
  new_forwarder : (text : String) → HttpError
  build_forwarder : HttpError → HttpError
  forward_failed : (text : String) → HttpError
  forward_timed_out : HttpError
  marshal_body : (text : String) → HttpError
  create_request : (text : String) → HttpError
  execute_request : (text : String) → HttpError
  read_body : (text : String) → HttpError
  cel_error : (text : String) → HttpError
  until_not_bool : (expr : String) → HttpError

pub data Outcome {ℓ} (A : Type ℓ) : Type ℓ where
  ok : A → Outcome A
  err : HttpError → Outcome A

-- The Message of a Result.
pub data Message : Type 0 where
  -- of the zero Result, and of one that passes
  empty : Message
  tier_mismatch : Message
  rest_config_required : Message
  resolve_target : HttpError → Message
  invalid_url_path : (text : String) → Message
  invalid_setting : HttpError → Message
  request_error : HttpError → Message
  until_error : HttpError → Message
  until_not_satisfied : (expr : String) (status : ℤ) → Message
  status_mismatch : (status expected : ℤ) (body : String) → Message
  invalid_pattern : (key pattern text : String) → Message
  pattern_mismatch : (key value pattern : String) → Message
  header_mismatch : (key value expected : String) → Message
  body_mismatch : (contains body : String) → Message
  body_not_json : (text : String) → Message
  path_error : (expr : String) → WalkError → Message
  path_not_found : (expr : String) → Message
  path_mismatch : (expr actual expected : String) → Message

pub record Result : Type 0 where
  pub pass : Bool
  pub message : Message

-- What code outside of the package answers.
pub data Reply {ℓ} (A : Type ℓ) : Type ℓ where
  got : A → Reply A
  refused : (text : String) → Reply A

-- An http.Response once its body is read. The characters of the body are its bytes.
pub record Response : Type 0 where
  pub status : ℤ
  pub header : List (String × List String)
  pub body : String

pub record Request : Type 0 where
  pub method : String
  pub url : String
  pub body : Option String
  pub headers : List (String × String)
  pub host : String
  pub timeout : Duration

module _ {ℓ κ} {A : Type ℓ} {B : Type κ} where
  infixl 5 ◌>>=◌
  unfoldable pub ◌>>=◌ : Outcome A → (A → Outcome B) → Outcome B
  ok a >>= next = next a
  err e >>= next = err e

infixl 5 ◌>>◌
unfoldable pub ◌>>◌ {ℓ} : {B : Type ℓ} → Outcome (Unit {0}) → Outcome B → Outcome B
ok done >> next = next
err e >> next = err e

-- fmt.Errorf around an error of the package, and around one from outside.
abbrev pub wrap {ℓ} : {A : Type ℓ} → (HttpError → HttpError) → Outcome A → Outcome A
wrap f (ok a) = ok a
wrap f (err e) = err (f e)

abbrev pub answer {ℓ} : {A : Type ℓ} → (String → HttpError) → Reply A → Outcome A
answer f (got a) = ok a
answer f (refused text) = err (f text)

-- if err != nil, and if the condition fails
abbrev pub check : (String → HttpError) → Option String → Outcome (Unit {0})
check f none = ok tt
check f (some text) = err (f text)

abbrev pub require : Bool → HttpError → Outcome (Unit {0})
require true e = ok tt
require false e = err e

abbrev pub required {ℓ} : {A : Type ℓ} → Option A → HttpError → Outcome A
required (some a) e = ok a
required none e = err e

-- What holds of the value, where there is one.
abbrev pub Ensures {ℓ κ} : {A : Type ℓ} → (A → Type κ) → Outcome A → Type κ
Ensures P (ok a) = P a
Ensures P (err e) = Unit

module _ {ℓ κ} {A : Type ℓ} {B : Type κ} where
  pub Ensures->>= {μ} :
      (P : B → Type μ) (first : Outcome A) (next : A → Outcome B)
      → ((a : A) → Ensures P (next a))
      → Ensures P (first >>= next)
  unfolding ◌>>=◌
  Ensures->>= P (ok a) next h = h a
  Ensures->>= P (err e) next h = tt

pub Ensures->> {ℓ κ} :
    {B : Type ℓ} (P : B → Type κ) (first : Outcome (Unit {0})) (next : Outcome B)
    → Ensures P next
    → Ensures P (first >> next)
unfolding ◌>>◌
Ensures->> P (ok done) next h = h
Ensures->> P (err e) next h = tt

pub Outcome-cases {ℓ} :
    {A : Type ℓ} (o : Outcome A) → ((e : HttpError) × (o ≡ err e)) ⊎ ((a : A) × (o ≡ ok a))
Outcome-cases (ok a) = inr (a, refl)
Outcome-cases (err e) = inl (e, refl)
