-- ===== src/Http/Routes/Settled.antt =====
-- internal/matchers/http.go: what the routing modes leave of the assertion and of a port forward.
use vigie.Prelude.{
  String, ◌≡◌, refl, Bool, true, false, List, [], ◌∷◌, ◌==◌, if◌then◌else◌, Bool-cases, inl, inr,
  ◌⊎◌,
}
use vigie.Prelude.Texts.{append}
use vigie.Prelude.Int.{ℤ}
use vigie.Http.Types.{HttpTarget, HttpAssert, Outcome, ok, err, Ensures, Ensures->>=, Ensures->>}
use vigie.Http.Nodes.{Ingress}
use vigie.Http.Target.{
  Remote, Resolved, PortForward, Signal, ready, ended, timed_out, Event, opened, closed, print_int,
}
use vigie.Http.Routes.{
  host_from, at_address, resolve_via_direct, resolve_via_ingress, resolve_via_node_port,
  resolve_http_target_url,
}
use vigie.Http.Forward.{
  await_ready, start_forward, forwarded, prepare_forward, build_port_forwarder,
  resolve_via_port_forward,
}

-- All fields but the Host.
pub record IsKept (spec kept : HttpAssert) : Type 0 where
  pub via : kept.via ≡ spec.via
  pub target : kept.target ≡ spec.target
  pub path : kept.path ≡ spec.path
  pub method : kept.method ≡ spec.method
  pub headers : kept.headers ≡ spec.headers
  pub body : kept.body ≡ spec.body
  pub timeout : kept.timeout ≡ spec.timeout
  pub retries : kept.retries ≡ spec.retries
  pub assert : kept.assert ≡ spec.assert

pub IsKept-self : (spec : HttpAssert) → IsKept spec spec
IsKept-self spec = record {
  via = refl;
  target = refl;
  path = refl;
  method = refl;
  headers = refl;
  body = refl;
  timeout = refl;
  retries = refl;
  assert = refl;
}

host_from-IsKept : (ingress : Ingress) (spec : HttpAssert) → IsKept spec (host_from ingress spec)
host_from-IsKept ingress spec = elim (Bool-cases (spec.host == "")) [
  | inl e ↦ rw e (record {
    via = refl;
    target = refl;
    path = refl;
    method = refl;
    headers = refl;
    body = refl;
    timeout = refl;
    retries = refl;
    assert = refl;
  })
  | inr e ↦ rw e (IsKept-self spec)
]

abbrev pub Keeps : HttpAssert → Resolved → Type 0
Keeps spec resolved = (IsKept spec resolved.spec) × (resolved.cleanup ≡ false)

at_address-Keeps :
    (target : HttpTarget) (ingress : Ingress) (spec : HttpAssert) (address : String × Bool)
    → Ensures (Keeps spec) (at_address target ingress spec address)
at_address-Keeps target ingress spec (address, used) = (host_from-IsKept ingress spec, refl)

pub resolve_via_ingress-Keeps :
    (env : Remote) (spec : HttpAssert) (ns : String)
    → Ensures (Keeps spec) (resolve_via_ingress env spec ns)
unfolding resolve_via_ingress
resolve_via_ingress-Keeps env spec ns = Ensures->>= (Keeps spec) _ _ λ target.
    Ensures->> (Keeps spec) _ _ (
      Ensures->> (Keeps spec) _ _ (
        Ensures->>= (Keeps spec) _ _ λ timeout. Ensures->>= (Keeps spec) _ _ λ ingress.
          Ensures->>= (Keeps spec) _ _ λ address. at_address-Keeps target ingress spec address))

resolve_via_direct-Keeps : (spec : HttpAssert) → Ensures (Keeps spec) (resolve_via_direct spec)
unfolding resolve_via_direct
resolve_via_direct-Keeps spec = Ensures->>= (Keeps spec) _ _ λ target.
    elim (Bool-cases (target.url == "")) [ inl e ↦ rw e tt | inr e ↦ rw e (IsKept-self spec, refl) ]

resolve_via_node_port-Keeps :
    (env : Remote) (spec : HttpAssert) (ns : String)
    → Ensures (Keeps spec) (resolve_via_node_port env spec ns)
unfolding resolve_via_node_port
resolve_via_node_port-Keeps env spec ns = Ensures->>= (Keeps spec) _ _ λ target.
    Ensures->> (Keeps spec) _ _ (
      Ensures->> (Keeps spec) _ _ (
        Ensures->>= (Keeps spec) _ _
          λ port. Ensures->>= (Keeps spec) _ _ λ ip. (IsKept-self spec, refl)))

-- A port forward is there exactly where a cleanup function is, and an error leaves none open.
abbrev pub IsSettled : HttpAssert → List Event × Outcome Resolved → Type 0
IsSettled spec (events, ok resolved) =
    (IsKept spec resolved.spec)
    × (((events ≡ []) × (resolved.cleanup ≡ false))
        ⊎ ((events ≡ opened ∷ []) × (resolved.cleanup ≡ true)))
IsSettled spec (events, err e) = (events ≡ []) ⊎ (events ≡ opened ∷ closed ∷ [])

without_forward :
    (spec : HttpAssert) (outcome : Outcome Resolved)
    → Ensures (Keeps spec) outcome
    → IsSettled spec ([], outcome)
without_forward spec (ok r) (kept, no_cleanup) = (kept, inl (refl, no_cleanup))
without_forward spec (err e) h = inl refl

await_ready-IsSettled :
    (signal : Signal) (url : String) (spec : HttpAssert)
    → IsSettled spec (await_ready signal url spec)
await_ready-IsSettled ready url spec = (IsKept-self spec, inr (refl, refl))
await_ready-IsSettled (ended text) url spec = inr refl
await_ready-IsSettled timed_out url spec = inr refl

start_forward-IsSettled :
    (env : Remote) (forwarder : Outcome PortForward) (port : ℤ) (spec : HttpAssert)
    → IsSettled spec (start_forward env forwarder port spec)
start_forward-IsSettled env (err e) port spec = inr refl
start_forward-IsSettled env (ok forwarder) port spec =
    await_ready-IsSettled (env.forward forwarder) (append "http://localhost:" (print_int port)) spec

forwarded-IsSettled :
    (env : Remote) (host : String) (spec : HttpAssert)
    (prepared : Outcome (HttpTarget × (String × String) × ℤ))
    → IsSettled spec (forwarded env host spec prepared)
forwarded-IsSettled env host spec (err e) = inl refl
forwarded-IsSettled env host spec (ok (target, pod, port)) =
    start_forward-IsSettled env (build_port_forwarder env host pod.1 pod.0 port target.port) port
      spec

resolve_via_port_forward-IsSettled :
    (env : Remote) (host : String) (spec : HttpAssert) (ns : String)
    → IsSettled spec (resolve_via_port_forward env host spec ns)
unfolding resolve_via_port_forward
resolve_via_port_forward-IsSettled env host spec ns =
    forwarded-IsSettled env host spec (prepare_forward env spec ns)

-- Whatever the mode and the environment, the resolution of a target leaves all of the assertion but its
-- Host. Where it gives a URL, a port forward is open exactly if there is a cleanup function. Where it
-- fails, none is open: the one that was opened, if any, is closed.
pub resolve_http_target_url-IsSettled :
    (env : Remote) (host : String) (spec : HttpAssert) (ns : String)
    → IsSettled spec (resolve_http_target_url env host spec ns)
unfolding resolve_http_target_url
resolve_http_target_url-IsSettled env host spec ns =
    let via = if spec.via == "" then "portforward" else spec.via in
    elim (Bool-cases (via == "portforward")) [
      | inl e ↦ rw e (resolve_via_port_forward-IsSettled env host spec ns)
      | inr e ↦ elim (Bool-cases (via == "direct")) [
        | inl d ↦
            rw (e, d)
              (without_forward spec (resolve_via_direct spec) (resolve_via_direct-Keeps spec))
        | inr d ↦ elim (Bool-cases (via == "ingress")) [
          | inl i ↦
              rw (e, d, i)
                (without_forward spec (resolve_via_ingress env spec ns)
                  (resolve_via_ingress-Keeps env spec ns))
          | inr i ↦ elim (Bool-cases (via == "nodeport")) [
            | inl n ↦
                rw (e, d, i, n)
                  (without_forward spec (resolve_via_node_port env spec ns)
                    (resolve_via_node_port-Keeps env spec ns))
            | inr n ↦ rw (e, d, i, n) (inl refl)
          ]
        ]
      ]
    ]
