-- ===== src/Http/Samples.antt =====
-- internal/matchers/http.go: an assertion on a pod that answers at the second attempt.
use vigie.Prelude.{
  String, ℕ, zero, suc, ◌<◌, ◌≡◌, ◌≢◌, ◌↔◌, refl, true, false, none, some, List, [], ◌∷◌, All,
  arith, ◌==◌,
}
use vigie.Prelude.Texts.{append, size}
use vigie.Prelude.Int.{ℤ, pos}
use vigie.Value.{null, object, end}
use vigie.Http.Types.{HttpAssert, got, refused, Response, Request, empty, ok, ◌>>=◌, ◌>>◌}
use vigie.Http.Nodes.{Node, ServicePort, resolve_node_ip, first_node_internal_ip, pick_node_port}
use vigie.Http.Target.{Remote, Event, ready, opened, closed, slept, sent}
use vigie.Http.Routes.{resolve_http_target_url, resolve_via_ingress}
use vigie.Http.Routes.Settled.{IsSettled, resolve_http_target_url-IsSettled}
use vigie.Http.Routes.Ingresses.{resolve_via_ingress-unassigned}
use vigie.Http.Check.{Library, passed, panicked, check_header, is_pattern, check_http_assertions}
use vigie.Http.Check.Holds.{Satisfies, check_http_assertions-passed}
use vigie.Http.Check.Panics.{IsRoomy, expected_headers, check_header-panics}
use vigie.Http.Exchange.{Exchange, answered, not_answered, Env}
use vigie.Http.Retry.{
  EvalContext, returned, passing, failing, Turn, stop, again, attempts, eval_http,
}
use vigie.Http.Retry.Attempts.{total, sent_one, IsDecided, attempts-IsDecided}
use vigie.Http.Retry.Runs.{allowed_by, IsAnswered}
use vigie.Http.Retry.Cleanup.{
  IsBracketed, IsWithin, eval_http-IsBracketed, eval_http-IsWithin, eval_http-passes,
}

abbrev spec : HttpAssert
spec = record {
  via = "";
  target = some (record { kind = "Pod"; name = "web"; namespace = ""; port = pos 8080; url = "" });
  method = "";
  path = "/health";
  host = "";
  headers = [];
  body = null;
  timeout = "";
  retries = some (record { count = pos 2; interval = ""; until = "" });
  assert = some (record {
    status = pos 200;
    headers = ("Content-Type", "~/json/") ∷ [];
    body = null;
    body_contains = "";
    json_path = end;
  });
}

abbrev response : ℤ → Response
response status = record {
  status = status;
  header = ("Content-Type", "json" ∷ []) ∷ [];
  body = "{}";
}

-- A cluster with a pod to forward to and with no load balancer.
abbrev remote : Remote
remote = record {
  new_client = none;
  get_service = λ namespace name. refused "not found";
  list_pods = λ namespace selector. got [];
  list_nodes = got [];
  get_ingress = λ poll namespace name. refused "not found";
  polls = λ timeout. 3;
  poll_end = "context deadline exceeded";
  parse_duration = λ text. refused "invalid";
  listen = got (pos 40000);
  close_listener = none;
  round_tripper = none;
  parse_url = λ host. none;
  new_forwarder = λ forwarder. none;
  forward = λ forwarder. ready;
}

abbrev library : Library
library = record {
  canonical = λ key. key;
  compile = λ pattern. got (λ text. text == pattern);
  unmarshal = λ body. got (object end);
  print_value = λ v. "";
}

abbrev reply_to : (attempt : ℕ) → Exchange
reply_to zero = not_answered "connection refused"
reply_to (suc attempt) = answered (response (pos 200))

abbrev env : Env
env = record {
  remote = remote;
  library = library;
  network = record {
    join_path = λ base path. got (append base path);
    marshal = λ body. refused "no body";
    new_request = λ method url. got "localhost:40000";
    do_request = λ attempt request. reply_to attempt;
    eval_cel = λ expr bindings. refused "no expression";
  };
}

abbrev ctx : EvalContext
ctx = record { in_apply_tier = true; rest_config = some "10.0.0.1"; namespace = "test" }

abbrev request : Request
request = record {
  method = "GET";
  url = "http://localhost:40000/health";
  body = none;
  headers = [];
  host = "localhost:40000";
  timeout = pos 30_000_000_000;
}

run-second : eval_http env spec ctx ≡ (
  opened ∷ sent request ∷ slept (pos 1_000_000_000) ∷ sent request ∷ closed ∷ [],
  returned passing,
)
unfolding eval_http ◌>>=◌ ◌>>◌
run-second = refl

run-returned : (eval_http env spec ctx).1 ≡ returned passing
unfolding eval_http ◌>>=◌ ◌>>◌
run-returned = refl

eval_http-IsBracketed_example : IsBracketed (eval_http env spec ctx).0
eval_http-IsBracketed_example = eval_http-IsBracketed env spec ctx

eval_http-IsWithin_example : IsWithin spec.retries (total sent_one (eval_http env spec ctx).0)
eval_http-IsWithin_example = eval_http-IsWithin env spec ctx

eval_http-passes_example : IsAnswered env (allowed_by spec.retries) spec.assert
eval_http-passes_example = eval_http-passes env spec ctx passing run-returned refl

resolve_http_target_url-IsSettled_example :
    IsSettled spec (resolve_http_target_url remote "10.0.0.1" spec "test")
resolve_http_target_url-IsSettled_example =
    resolve_http_target_url-IsSettled remote "10.0.0.1" spec "test"

resolve_via_ingress-unassigned_example :
    resolve_via_ingress remote spec "test"
    ≢ ok (record { url = "http://10.0.0.7"; cleanup = false; spec = spec })
resolve_via_ingress-unassigned_example =
    resolve_via_ingress-unassigned remote (λ poll namespace name. tt) spec "test"
      (record { url = "http://10.0.0.7"; cleanup = false; spec = spec })

abbrev turns : ℕ → List Event × Turn
turns zero = ([], again (failing empty))
turns (suc k) = ([], stop (returned passing))

attempts-IsDecided_example :
    IsDecided turns 0 3 (failing empty) (attempts turns (pos 1) 3 0 (failing empty)).1
attempts-IsDecided_example = attempts-IsDecided turns (pos 1) 3 0 (failing empty)

check_http_assertions-passed_example :
    (check_http_assertions library spec.assert (response (pos 200)) ≡ passed)
    ↔ Satisfies library (response (pos 200)) spec.assert
check_http_assertions-passed_example =
    check_http_assertions-passed library spec.assert (response (pos 200))

check_header-panics_example :
    (check_header library "Content-Type" "~/" "json" ≡ panicked)
    ↔ ((is_pattern "~/" ≡ true) × (size "~/" < 3))
check_header-panics_example = check_header-panics library "Content-Type" "~/" "json"

-- The two slashes are one.
header-panics : check_header library "Content-Type" "~/" "json" ≡ panicked
unfolding check_header
header-panics = refl

spec-IsRoomy : All (λ (entry : String × String). IsRoomy entry.1) (expected_headers spec.assert)
spec-IsRoomy = ((λ shaped. omega arith), tt)

abbrev node : (is_ready ip : String) → Node
node is_ready ip = record {
  addresses = record { type = "InternalIP"; address = ip } ∷ [];
  conditions = record { type = "Ready"; status = is_ready } ∷ [];
}

abbrev nodes : List Node
nodes = node "False" "10.0.0.1" ∷ node "True" "10.0.0.2" ∷ []

nodes-resolved : resolve_node_ip (got nodes) ≡ ok "10.0.0.2"
unfolding resolve_node_ip
nodes-resolved = refl

-- Readiness is not looked at here.
nodes-first : first_node_internal_ip (got nodes) ≡ ok "10.0.0.1"
unfolding first_node_internal_ip
nodes-first = refl

abbrev first_port : ServicePort
first_port = record { port = pos 80; target_port = pos 8080; node_port = pos 30080 }

abbrev second_port : ServicePort
second_port = record { port = pos 443; target_port = pos 8443; node_port = pos 30443 }

port-picked : pick_node_port first_port (second_port ∷ []) (pos 8443) "test" "web" ≡ ok (pos 30443)
unfolding pick_node_port
port-picked = refl
