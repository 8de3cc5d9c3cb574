-- ===== src/Http/Routes.antt =====
-- internal/matchers/http.go: the four routing modes.
pub mod Settled
pub mod Ingresses
use vigie.Prelude.{
  String, Bool, true, false, ◌||◌, not, Option, none, some, List, [], ◌∷◌, ◌==◌, if◌then◌else◌,
}
use vigie.Prelude.Texts.{append, has_prefix, lowers_to}
use vigie.Prelude.Int.{ℤ, is_zero, leb_int}
use vigie.Http.Types.{
  Duration, HttpTarget, HttpAssert, HttpError, Outcome, ok, err, unknown_via, direct_needs_url,
  needs_target, needs_name, needs_port, create_client, parse_timeout_for_ingress, resolve_node_port,
  unsupported_kind, no_selector, resolve_pod, close_listener, allocate_port, create_round_tripper,
  parse_server_url, build_forwarder, forward_failed, forward_timed_out, new_forwarder, list_pods,
  ◌>>=◌, ◌>>◌, wrap, answer, check, require, required,
}
use vigie.Http.Nodes.{
  Service, Ingress, resolve_ingress_address, resolve_node_ip, resolve_service_node_port,
  running_pod,
}
use vigie.Http.Target.{
  Remote, PortForward, Signal, ready, ended, timed_out, Event, opened, closed, Resolved, print_int,
  shortest_poll, parse_http_timeout, resolve_target_namespace, select_ingress_scheme,
  build_ingress_url, pick_ingress_rule_host, wait_for_ingress_address,
}
use vigie.Http.Forward.{resolve_via_port_forward}

abbrev direct_url : String → HttpAssert → Outcome Resolved
direct_url url spec =
    if url == ""
    then err direct_needs_url
    else ok (record { url = url; cleanup = false; spec = spec })

unfoldable pub resolve_via_direct : HttpAssert → Outcome Resolved
resolve_via_direct spec = do
  target ← required spec.target direct_needs_url
  direct_url target.url spec

-- spec.Host = host
abbrev pub set_host : String → HttpAssert → HttpAssert
set_host host spec = record {
  via = spec.via;
  target = spec.target;
  method = spec.method;
  path = spec.path;
  host = host;
  headers = spec.headers;
  body = spec.body;
  timeout = spec.timeout;
  retries = spec.retries;
  assert = spec.assert;
}

abbrev pub host_from : Ingress → HttpAssert → HttpAssert
host_from ingress spec =
    if spec.host == "" then set_host (pick_ingress_rule_host ingress) spec else spec

abbrev pub at_address :
    HttpTarget → Ingress → HttpAssert → (address : String × Bool) → Outcome Resolved
at_address target ingress spec (address, used_fallback) =
    let scheme = select_ingress_scheme ingress target.port in
    ok (record {
      url = build_ingress_url scheme address target.port;
      cleanup = false;
      spec = host_from ingress spec;
    })

unfoldable pub resolve_via_ingress : Remote → HttpAssert → (fallback_ns : String) → Outcome Resolved
unfolding leb_int
resolve_via_ingress env spec fallback_ns = do
  target ← required spec.target (needs_name "ingress")
  require (not (target.name == "")) (needs_name "ingress")
  let namespace = resolve_target_namespace target.namespace fallback_ns
  check create_client env.new_client
  timeout ← wrap parse_timeout_for_ingress (parse_http_timeout env spec.timeout)
  let poll_timeout = if not (leb_int shortest_poll timeout) then shortest_poll else timeout
  ingress ← wait_for_ingress_address env namespace target.name poll_timeout
  address ← resolve_ingress_address env.list_nodes ingress.load_balancers
  at_address target ingress spec address

abbrev http_url : (host : String) (port : ℤ) → String
http_url host port = append "http://" (append host (append ":" (print_int port)))

unfoldable pub resolve_via_node_port :
    Remote → HttpAssert → (fallback_ns : String) → Outcome Resolved
resolve_via_node_port env spec fallback_ns = do
  target ← required spec.target (needs_target "nodeport")
  require (not (target.name == "")) (needs_name "nodeport")
  let given = if target.namespace == "" then fallback_ns else target.namespace
  let namespace = if given == "" then "default" else given
  check create_client env.new_client
  port ← wrap (resolve_node_port namespace target.name) (
      resolve_service_node_port (env.get_service namespace target.name) namespace target.name
        target.port)
  ip ← wrap HttpError.resolve_node_ip (resolve_node_ip env.list_nodes)
  ok (record { url = http_url ip port; cleanup = false; spec = spec })

unfoldable pub resolve_http_target_url :
    Remote
    → (rest_host : String) → HttpAssert
    → (fallback_ns : String) → List Event × Outcome Resolved
unfolding resolve_via_port_forward resolve_via_direct resolve_via_ingress resolve_via_node_port
resolve_http_target_url env rest_host spec fallback_ns =
    let via = if spec.via == "" then "portforward" else spec.via in
    if via == "portforward"
    then resolve_via_port_forward env rest_host spec fallback_ns
    else if via == "direct"
    then ([], resolve_via_direct spec)
    else if via == "ingress"
    then ([], resolve_via_ingress env spec fallback_ns)
    else if via == "nodeport"
    then ([], resolve_via_node_port env spec fallback_ns)
    else ([], err (unknown_via via))
