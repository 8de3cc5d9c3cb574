-- ===== src/Http/Target.antt =====
-- internal/matchers/http.go: the URL that an http assertion is sent to.
use vigie.Prelude.{
  true, false, String, ℕ, zero, suc, Bool, ◌||◌, not, Option, none, some, List, [], ◌∷◌, ◌==◌,
  if◌then◌else◌,
}
use vigie.Prelude.Texts.{append, decimal}
use vigie.Prelude.Int.{ℤ, pos, negsuc, eq_int, is_zero}
use vigie.Http.Types.{
  Duration, HttpAssert, HttpError, Outcome, ok, err, Reply, got, refused, Request, invalid_timeout,
  wait_for_ingress, no_ingress_address, poll_ended,
}
use vigie.Http.Nodes.{Node, Service, Pod, Ingress}

-- The server, the path and the ports `local:remote` of a port forward.
pub record PortForward : Type 0 where
  pub server : String
  pub path : String
  pub ports : String

-- What the select waits for.
pub data Signal : Type 0 where
  ready : Signal
  ended : (text : String) → Signal
  timed_out : Signal

-- The Kubernetes client, the ports of the machine, and time.ParseDuration. An Option is an error's
-- text. `polls` is how often an Ingress is fetched before the timeout.
pub record Remote : Type 0 where
  pub new_client : Option String
  pub get_service : (namespace name : String) → Reply Service
  pub list_pods : (namespace selector : String) → Reply (List Pod)
  pub list_nodes : Reply (List Node)
  pub get_ingress : (poll : ℕ) (namespace name : String) → Reply Ingress
  pub polls : Duration → ℕ
  pub poll_end : String
  pub parse_duration : String → Reply Duration
  pub listen : Reply ℤ
  pub close_listener : Option String
  pub round_tripper : Option String
  pub parse_url : String → Option String
  pub new_forwarder : PortForward → Option String
  pub forward : PortForward → Signal

-- What happens on the way, in order: the stop channel of a port forward is made and closed, and
-- evalHTTP sleeps and sends.
pub data Event : Type 0 where
  opened : Event
  closed : Event
  slept : Duration → Event
  sent : Request → Event

-- The URL, whether there is a cleanup function, and the assertion, whose Host the ingress mode sets.
pub record Resolved : Type 0 where
  pub url : String
  pub cleanup : Bool
  pub spec : HttpAssert

-- %d
abbrev pub print_int : ℤ → String
print_int (pos n) = decimal n
print_int (negsuc n) = append "-" (decimal (suc n))

-- 30 * time.Second and 5 * time.Second
abbrev pub default_timeout : Duration
default_timeout = pos 30_000_000_000

abbrev pub shortest_poll : Duration
shortest_poll = pos 5_000_000_000

abbrev timeout_of : (timeout : String) → Reply Duration → Outcome Duration
timeout_of timeout (got d) = ok d
timeout_of timeout (refused text) = err (invalid_timeout timeout text)

unfoldable pub parse_http_timeout : Remote → String → Outcome Duration
parse_http_timeout env timeout =
    if timeout == "" then ok default_timeout else timeout_of timeout (env.parse_duration timeout)

unfoldable pub resolve_target_namespace : (target_ns fallback_ns : String) → String
resolve_target_namespace target_ns fallback_ns =
    if not (target_ns == "")
    then target_ns
    else if not (fallback_ns == "")
    then fallback_ns
    else "default"

unfoldable pub select_ingress_scheme : Ingress → (port : ℤ) → String
unfolding eq_int
select_ingress_scheme ingress port =
    if eq_int port (pos 443)
    then "https"
    else elim ingress.tls [ [] ↦ "http" | hosts ∷ rest ↦ "https" ]

abbrev pub default_port : (scheme : String) → ℤ
default_port scheme =
    if scheme == "http" then pos 80 else if scheme == "https" then pos 443 else pos 0

unfoldable pub build_ingress_url : (scheme address : String) (port : ℤ) → String
unfolding is_zero eq_int
build_ingress_url scheme address port =
    let base = append scheme (append "://" address) in
    if is_zero port || eq_int port (default_port scheme)
    then base
    else append base (append ":" (print_int port))

unfoldable pub first_host : List String → String
first_host [] = ""
first_host (host ∷ rest) = let later = first_host rest in if host == "" then later else host

unfoldable pub pick_ingress_rule_host : Ingress → String
unfolding first_host
pick_ingress_rule_host ingress = first_host ingress.rules

-- How the polls end: with an Ingress that has an address, or with an error and the last Ingress.
pub data Polled : Type 0 where
  reached : Ingress → Polled
  stopped : HttpError → Option Ingress → Polled

abbrev pub has_address : Ingress → Bool
has_address ing = elim ing.load_balancers [ [] ↦ false | lb ∷ rest ↦ true ]

-- One poll: `next` are the polls after it.
abbrev pub poll_once :
    (namespace name : String)
    → Reply Ingress
    → (ingress : Option Ingress) → (next : Ingress → Polled) → Polled
poll_once namespace name (refused text) ingress next =
    stopped (HttpError.get_ingress namespace name text) ingress
poll_once namespace name (got ing) ingress next = if has_address ing then reached ing else next ing

unfoldable pub poll_ingress :
    Remote → (namespace name : String) (left poll : ℕ) (ingress : Option Ingress) → Polled
poll_ingress env namespace name zero poll ingress = stopped (poll_ended env.poll_end) ingress
poll_ingress env namespace name (suc left) poll ingress =
    poll_once namespace name (env.get_ingress poll namespace name) ingress
      (λ ing. poll_ingress env namespace name left (suc poll) (some ing))

abbrev pub polled : (namespace name : String) → Polled → Outcome Ingress
polled namespace name (reached ing) = ok ing
polled namespace name (stopped e (some ing)) = err (no_ingress_address namespace name)
polled namespace name (stopped e none) = err (wait_for_ingress namespace name e)

unfoldable pub wait_for_ingress_address :
    Remote → (namespace name : String) → Duration → Outcome Ingress
unfolding poll_ingress
wait_for_ingress_address env namespace name timeout =
    polled namespace name (poll_ingress env namespace name (env.polls timeout) 0 none)
