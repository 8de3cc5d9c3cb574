-- ===== src/Http/Forward.antt =====
-- internal/matchers/http.go: the mode that forwards a local port to a pod.
use vigie.Prelude.{String, Bool, true, false, ◌||◌, not, List, [], ◌∷◌, ◌==◌, if◌then◌else◌}
use vigie.Prelude.Texts.{append, has_prefix, lowers_to}
use vigie.Prelude.Int.{ℤ, is_zero}
use vigie.Http.Types.{
  HttpTarget, HttpAssert, HttpError, Outcome, ok, err, needs_target, needs_name, needs_port,
  create_client, unsupported_kind, no_selector, resolve_pod, close_listener, allocate_port,
  create_round_tripper, parse_server_url, build_forwarder, forward_failed, forward_timed_out,
  new_forwarder, list_pods, ◌>>=◌, ◌>>◌, wrap, answer, check, require, required,
}
use vigie.Http.Nodes.{Service, running_pod}
use vigie.Http.Target.{
  Remote, PortForward, Signal, ready, ended, timed_out, Event, opened, closed, Resolved, print_int,
  resolve_target_namespace,
}

-- k=v, joined by commas
abbrev pub build_label_selector : List (String × String) → String
build_label_selector [] = ""
build_label_selector ((k, v) ∷ []) = append k (append "=" v)
build_label_selector ((k, v) ∷ more ∷ rest) =
    append k (append "=" (append v (append "," (build_label_selector (more ∷ rest)))))

abbrev has_selector : Service → Bool
has_selector svc = elim svc.selector [ [] ↦ false | kv ∷ rest ↦ true ]

unfoldable pub resolve_pod_via_service :
    Remote → (namespace service_name : String) → Outcome (String × String)
resolve_pod_via_service env namespace name = do
  svc ← answer (HttpError.get_service namespace name) (env.get_service namespace name)
  require (has_selector svc) (no_selector namespace name)
  pods ←
      answer (list_pods namespace name)
        (env.list_pods namespace (build_label_selector svc.selector))
  pod ← running_pod pods namespace name
  ok (pod, namespace)

-- (podName, namespace), by the kind.
abbrev choose_pod : Remote → HttpTarget → (namespace : String) → Outcome (String × String)
unfolding resolve_pod_via_service
choose_pod env target namespace =
    if lowers_to target.kind "pod" || target.kind == ""
    then ok (target.name, namespace)
    else if lowers_to target.kind "service" || lowers_to target.kind "svc"
    then resolve_pod_via_service env namespace target.name
    else err (unsupported_kind target.kind)

unfoldable pub resolve_pod_for_target :
    Remote → HttpTarget → (fallback_ns : String) → Outcome (String × String)
unfolding choose_pod
resolve_pod_for_target env target fallback_ns = do
  check create_client env.new_client
  let namespace = resolve_target_namespace target.namespace fallback_ns
  choose_pod env target namespace

unfoldable pub allocate_free_port : Remote → Outcome ℤ
allocate_free_port env = do
  port ← answer HttpError.listen env.listen
  check close_listener env.close_listener
  ok port

-- The server and the path of the URL.
unfoldable pub build_port_forward_url :
    Remote → (rest_host namespace pod_name : String) → Outcome (String × String)
unfolding has_prefix
build_port_forward_url env rest_host namespace pod_name = do
  let host =
      if not (has_prefix rest_host "http://" || has_prefix rest_host "https://")
      then append "https://" rest_host
      else rest_host
  check (parse_server_url host) (env.parse_url host)
  ok (
    host,
    append "/api/v1/namespaces/"
        (append namespace (append "/pods/" (append pod_name "/portforward"))),
  )

unfoldable pub build_port_forwarder :
    Remote
    → (rest_host namespace pod_name : String) (local_port remote_port : ℤ) → Outcome PortForward
unfolding build_port_forward_url
build_port_forwarder env rest_host namespace pod_name local_port remote_port = do
  check create_round_tripper env.round_tripper
  server ← build_port_forward_url env rest_host namespace pod_name
  let forwarder : PortForward = record {
    server = server.0;
    path = server.1;
    ports = append (print_int local_port) (append ":" (print_int remote_port));
  }
  check new_forwarder (env.new_forwarder forwarder)
  ok forwarder

-- The select, once the forwarder runs. cleanup closes the stop channel.
abbrev pub await_ready : Signal → (url : String) → HttpAssert → List Event × Outcome Resolved
await_ready ready url spec = (opened ∷ [], ok (record { url = url; cleanup = true; spec = spec }))
await_ready (ended text) url spec = (opened ∷ closed ∷ [], err (forward_failed text))
await_ready timed_out url spec = (opened ∷ closed ∷ [], err forward_timed_out)

abbrev pub start_forward :
    Remote → Outcome PortForward → (local_port : ℤ) → HttpAssert → List Event × Outcome Resolved
start_forward env (err e) local_port spec = (opened ∷ closed ∷ [], err (build_forwarder e))
start_forward env (ok forwarder) local_port spec =
    await_ready (env.forward forwarder) (append "http://localhost:" (print_int local_port)) spec

-- What is done before the stop channel is made: the target, the pod with its namespace, and the port.
unfoldable pub prepare_forward :
    Remote → HttpAssert → (fallback_ns : String) → Outcome (HttpTarget × (String × String) × ℤ)
unfolding resolve_pod_for_target allocate_free_port
prepare_forward env spec fallback_ns = do
  target ← required spec.target (needs_target "portforward")
  require (not (target.name == "")) (needs_name "portforward")
  require (not (is_zero target.port)) (needs_port "portforward")
  pod ← wrap resolve_pod (resolve_pod_for_target env target fallback_ns)
  local_port ← wrap allocate_port (allocate_free_port env)
  ok (target, pod, local_port)

abbrev pub forwarded :
    Remote
    → (rest_host : String) → HttpAssert
    → Outcome (HttpTarget × (String × String) × ℤ)
    → List Event × Outcome Resolved
forwarded env rest_host spec (err e) = ([], err e)
forwarded env rest_host spec (ok (target, pod, local_port)) =
    start_forward env (build_port_forwarder env rest_host pod.1 pod.0 local_port target.port)
      local_port spec

unfoldable pub resolve_via_port_forward :
    Remote
    → (rest_host : String) → HttpAssert
    → (fallback_ns : String) → List Event × Outcome Resolved
unfolding prepare_forward build_port_forwarder
resolve_via_port_forward env rest_host spec fallback_ns =
    forwarded env rest_host spec (prepare_forward env spec fallback_ns)
