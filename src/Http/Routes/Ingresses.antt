-- ===== src/Http/Routes/Ingresses.antt =====
-- internal/matchers/http.go: the mode that goes through an Ingress.
use vigie.Prelude.{
  String, ◌≡◌, ◌≢◌, ap, Bool, true, false, Option, none, some, List, [], ◌∷◌, ℕ, zero, suc,
}
use vigie.Http.Types.{
  Duration, HttpAssert, Outcome, ok, err, ◌>>=◌, Ensures, Ensures->>=, Ensures->>, Reply, got,
  refused,
}
use vigie.Http.Nodes.{Ingress, LoadBalancer}
use vigie.Http.Target.{
  Remote, Resolved, Polled, reached, stopped, has_address, poll_once, polled, poll_ingress,
  wait_for_ingress_address,
}
use vigie.Http.Routes.{resolve_via_ingress}

-- No Ingress, or one that its controller has given no address.
abbrev pub IsUnassigned : Reply Ingress → Type 0
IsUnassigned (refused text) = Unit
IsUnassigned (got ingress) = ingress.load_balancers ≡ []

abbrev IsStopped : Polled → Type 0
IsStopped (reached ingress) = true ≡ false
IsStopped (stopped e ingress) = Unit

abbrev is_there : List LoadBalancer → Bool
is_there lbs = elim lbs [ [] ↦ false | lb ∷ rest ↦ true ]

poll_once-IsStopped :
    (ns name : String) (reply : Reply Ingress) (last : Option Ingress) (next : Ingress → Polled)
    → IsUnassigned reply
    → ((ing : Ingress) → IsStopped (next ing))
    → IsStopped (poll_once ns name reply last next)
poll_once-IsStopped ns name (refused text) last next h k = tt
poll_once-IsStopped ns name (got ing) last next h k =
    let none_yet : has_address ing ≡ false = ap is_there h in rw none_yet (k ing)

polled-Ensures :
    (ns name : String) (p : Polled) → IsStopped p → Ensures (λ ing. true ≡ false) (polled ns name p)
polled-Ensures ns name (reached ing) h = h
polled-Ensures ns name (stopped e none) h = tt
polled-Ensures ns name (stopped e (some ing)) h = tt

-- A chain that needs a value of a part without one has none.
without_value :
    {A : Type 0} (first : Outcome A) (next : A → Outcome Resolved)
    → Ensures (λ a. true ≡ false) first
    → Ensures (λ r. true ≡ false) (first >>= next)
unfolding ◌>>=◌
without_value (ok a) next h = cc
without_value (err e) next h = tt

no_value :
    (outcome : Outcome Resolved)
    → Ensures (λ r. true ≡ false) outcome
    → (r : Resolved) → outcome ≢ ok r
no_value (ok a) h r e = cc
no_value (err x) h r e = cc

module _ (env : Remote)
    (unassigned : (poll : ℕ) (ns name : String) → IsUnassigned (env.get_ingress poll ns name)) where
  poll_ingress-IsStopped :
      (ns name : String) (left poll : ℕ) (last : Option Ingress)
      → IsStopped (poll_ingress env ns name left poll last)
  unfolding poll_ingress
  poll_ingress-IsStopped ns name zero poll last = tt
  poll_ingress-IsStopped ns name (suc left) poll last =
      poll_once-IsStopped ns name (env.get_ingress poll ns name) last _ (unassigned poll ns name)
        (λ ing. poll_ingress-IsStopped ns name left (suc poll) (some ing))

  wait-Ensures :
      (ns name : String) (timeout : Duration)
      → Ensures (λ ing. true ≡ false) (wait_for_ingress_address env ns name timeout)
  unfolding wait_for_ingress_address
  wait-Ensures ns name timeout =
      polled-Ensures ns name (poll_ingress env ns name (env.polls timeout) 0 none)
        (poll_ingress-IsStopped ns name (env.polls timeout) 0 none)

  -- Where no poll finds an Ingress with a load balancer's address, the ingress mode gives no URL,
  -- whatever nodes the cluster has: the address of a node is not used.
  pub resolve_via_ingress-unassigned :
      (spec : HttpAssert) (ns : String) (r : Resolved) → resolve_via_ingress env spec ns ≢ ok r
  unfolding resolve_via_ingress
  resolve_via_ingress-unassigned spec ns = no_value (resolve_via_ingress env spec ns) (
      Ensures->>= (λ r. true ≡ false) _ _
        λ target.
          Ensures->> (λ r. true ≡ false) _ _
            (Ensures->> (λ r. true ≡ false) _ _
              (Ensures->>= (λ r. true ≡ false) _ _
                λ timeout. without_value _ _ (wait-Ensures _ _ _))))
