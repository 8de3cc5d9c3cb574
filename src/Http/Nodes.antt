-- ===== src/Http/Nodes.antt =====
-- internal/matchers/http.go: what is chosen from the objects of the cluster. The types of the Kubernetes
-- API are the fields that the code reads.
pub mod Chosen
use vigie.Prelude.{
  String, ℕ, Bool, true, false, ◌&&◌, ◌||◌, not, List, [], ◌∷◌, ◌==◌, if◌then◌else◌,
}
use vigie.Prelude.Int.{ℤ, pos, eq_int, is_zero}
use vigie.Http.Types.{
  HttpError, Outcome, ok, err, Reply, got, refused, list_nodes, no_internal_ip, no_nodes,
  no_addressable_ip, not_node_port, no_ports, first_port_unassigned, port_unassigned,
  no_port_matching, no_ingress_ip, no_running_pod,
}

pub record NodeAddress : Type 0 where
  pub type : String
  pub address : String

pub record NodeCondition : Type 0 where
  pub type : String
  pub status : String

pub record Node : Type 0 where
  pub addresses : List NodeAddress
  pub conditions : List NodeCondition

-- target_port is what IntValue returns of TargetPort.
pub record ServicePort : Type 0 where
  pub port : ℤ
  pub target_port : ℤ
  pub node_port : ℤ

pub record Service : Type 0 where
  pub type : String
  pub ports : List ServicePort
  pub selector : List (String × String)

pub record Pod : Type 0 where
  pub name : String
  pub phase : String

pub record LoadBalancer : Type 0 where
  pub ip : String
  pub hostname : String

-- A TLS entry is the list of its hosts, a rule its host.
pub record Ingress : Type 0 where
  pub load_balancers : List LoadBalancer
  pub tls : List (List String)
  pub rules : List String

-- The first InternalIP that is not empty, of one node.
unfoldable pub internal_ip : List NodeAddress → String
internal_ip [] = ""
internal_ip (a ∷ rest) =
    let later = internal_ip rest in
    if a.type == "InternalIP" && not (a.address == "") then a.address else later

unfoldable pub first_internal_ip : List Node → Outcome String
unfolding internal_ip
first_internal_ip [] = err no_internal_ip
first_internal_ip (node ∷ rest) =
    let later = first_internal_ip rest in
    if internal_ip node.addresses == "" then later else ok (internal_ip node.addresses)

unfoldable pub first_node_internal_ip : Reply (List Node) → Outcome String
unfolding first_internal_ip
first_node_internal_ip (refused text) = err (list_nodes text)
first_node_internal_ip (got nodes) = first_internal_ip nodes

-- (address, usedFallback)
abbrev pub fall_back : Outcome String → Outcome (String × Bool)
fall_back (err e) = err (no_ingress_ip e)
fall_back (ok ip) = ok (ip, true)

unfoldable pub resolve_ingress_address :
    Reply (List Node) → List LoadBalancer → Outcome (String × Bool)
unfolding first_node_internal_ip
resolve_ingress_address nodes [] = fall_back (first_node_internal_ip nodes)
resolve_ingress_address nodes (lb ∷ rest) =
    if not (lb.ip == "")
    then ok (lb.ip, false)
    else if not (lb.hostname == "")
    then ok (lb.hostname, false)
    else fall_back (first_node_internal_ip nodes)

-- The loop of pickNodeAddressIP: externalIP is the first ExternalIP so far.
unfoldable pub pick_address : List NodeAddress → (external_ip : String) → String
pick_address [] external_ip = external_ip
pick_address (a ∷ rest) external_ip =
    let later = pick_address rest (if external_ip == "" then a.address else external_ip) in
    let skipped = pick_address rest external_ip in
    if a.type == "InternalIP" then a.address else if a.type == "ExternalIP" then later else skipped

unfoldable pub pick_node_address_ip : List NodeAddress → String
unfolding pick_address
pick_node_address_ip addresses = pick_address addresses ""

unfoldable pub any_ready : List NodeCondition → Bool
any_ready [] = false
any_ready (c ∷ rest) = c.type == "Ready" && c.status == "True" || any_ready rest

unfoldable pub is_node_ready : Node → Bool
unfolding any_ready
is_node_ready node = any_ready node.conditions

-- No Ready node with an IP - try any node.
unfoldable pub any_node_ip : List Node → Outcome String
unfolding pick_node_address_ip
any_node_ip [] = err no_addressable_ip
any_node_ip (node ∷ rest) =
    let later = any_node_ip rest in
    let ip = pick_node_address_ip node.addresses in if ip == "" then later else ok ip

-- Prefer a Ready node; `nodes` are all of them.
unfoldable pub ready_node_ip : List Node → (nodes : List Node) → Outcome String
unfolding is_node_ready pick_node_address_ip any_node_ip
ready_node_ip [] nodes = any_node_ip nodes
ready_node_ip (node ∷ rest) nodes =
    let later = ready_node_ip rest nodes in
    let ip = pick_node_address_ip node.addresses in
    if is_node_ready node && not (ip == "") then ok ip else later

abbrev pub resolve_listed : List Node → Outcome String
unfolding ready_node_ip
resolve_listed [] = err no_nodes
resolve_listed (node ∷ rest) = ready_node_ip (node ∷ rest) (node ∷ rest)

unfoldable pub resolve_node_ip : Reply (List Node) → Outcome String
unfolding ready_node_ip
resolve_node_ip (refused text) = err (list_nodes text)
resolve_node_ip (got nodes) = resolve_listed nodes

unfoldable pub matching_node_port :
    List ServicePort → (target_port : ℤ) (namespace service_name : String) → Outcome ℤ
unfolding eq_int is_zero
matching_node_port [] target_port namespace name = err (no_port_matching namespace name target_port)
matching_node_port (p ∷ rest) target_port namespace name =
    let later = matching_node_port rest target_port namespace name in
    if eq_int p.port target_port || eq_int p.target_port target_port
    then if is_zero p.node_port
      then err (port_unassigned namespace name target_port)
      else ok p.node_port
    else later

-- resolveServiceNodePort asks for no port of an empty list: it refuses the list first.
unfoldable pub pick_node_port :
    ServicePort → List ServicePort → (target_port : ℤ) (namespace service_name : String) → Outcome ℤ
unfolding matching_node_port is_zero
pick_node_port first rest target_port namespace name =
    if is_zero target_port
    then if is_zero first.node_port
      then err (first_port_unassigned namespace name)
      else ok first.node_port
    else matching_node_port (first ∷ rest) target_port namespace name

abbrev pub pick_listed :
    List ServicePort → (target_port : ℤ) (namespace service_name : String) → Outcome ℤ
unfolding pick_node_port
pick_listed [] target_port namespace name = err (no_ports namespace name)
pick_listed (p ∷ rest) target_port namespace name = pick_node_port p rest target_port namespace name

unfoldable pub resolve_service_node_port :
    Reply Service → (namespace service_name : String) (target_port : ℤ) → Outcome ℤ
unfolding pick_node_port
resolve_service_node_port (refused text) namespace name target_port =
    err (HttpError.get_service namespace name text)
resolve_service_node_port (got svc) namespace name target_port =
    if svc.type == "NodePort"
    then pick_listed svc.ports target_port namespace name
    else err (not_node_port namespace name svc.type)

-- The name of the first pod that runs.
unfoldable pub running_pod : List Pod → (namespace service_name : String) → Outcome String
running_pod [] namespace name = err (no_running_pod namespace name)
running_pod (pod ∷ rest) namespace name =
    let later = running_pod rest namespace name in
    if pod.phase == "Running" then ok pod.name else later
