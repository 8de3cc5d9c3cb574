-- ===== src/Http/Nodes/Chosen.antt =====
-- internal/matchers/http.go: the node and the port that are chosen.
use vigie.Prelude.{
  String, ◌≡◌, ◌≢◌, ◌⊎◌, inl, inr, refl, sym, ap, ◌∙◌, Bool, true, false, ◌&&◌, ◌||◌, not, List, [],
  ◌∷◌, ◌==◌, All, Bool-cases, &&-true, ==_false, not-true,
}
use vigie.Prelude.Int.{ℤ, is_zero, eq_int}
use vigie.Http.Types.{ok, err, got, first_port_unassigned, port_unassigned}
use vigie.Http.Nodes.{
  Node, ServicePort, is_node_ready, pick_node_address_ip, any_node_ip, ready_node_ip,
  resolve_node_ip, matching_node_port, pick_node_port,
}

-- The first that passes a test.
abbrev pub IsFirst : {A : Type 0} → (A → Bool) → List A → A → Type 0
IsFirst test [] a = true ≡ false
IsFirst test (b ∷ rest) a = ((test b ≡ true) × (b ≡ a)) ⊎ ((test b ≡ false) × IsFirst test rest a)

abbrev pub has_ip : Node → Bool
unfolding pick_node_address_ip
has_ip node = not (pick_node_address_ip node.addresses == "")

abbrev pub is_usable : Node → Bool
unfolding is_node_ready pick_node_address_ip
is_usable node = is_node_ready node && has_ip node

-- The address is that of the first Ready node that has one; where there is no such node, that of the
-- first node that has one.
abbrev pub IsPreferred : List Node → String → Type 0
IsPreferred nodes ip =
    (node : Node) × (ip ≡ pick_node_address_ip node.addresses)
    × (ip ≢ "")
    × (IsFirst is_usable nodes node
        ⊎ (All (λ n. is_usable n ≡ false) nodes × IsFirst has_ip nodes node))

-- An address with the node that it is of.
abbrev IsAddressOf : (Node → Bool) → List Node → String → Type 0
IsAddressOf test nodes ip =
    (node : Node) × (ip ≡ pick_node_address_ip node.addresses) × (ip ≢ "") × IsFirst test nodes node

further :
    (test : Node → Bool) (node : Node) (nodes : List Node) (ip : String)
    → test node ≡ false
    → IsAddressOf test nodes ip
    → IsAddressOf test (node ∷ nodes) ip
further test node nodes ip e (n, p, q, f) = (n, p, q, inr (e, f))

any_node_ip-IsAddressOf :
    (nodes : List Node) (ip : String) → any_node_ip nodes ≡ ok ip → IsAddressOf has_ip nodes ip
unfolding any_node_ip
any_node_ip-IsAddressOf [] ip h = cc
any_node_ip-IsAddressOf (node ∷ rest) ip h =
    let here = pick_node_address_ip node.addresses in
    elim (Bool-cases (here == "")) [
      | inl e ↦
          further has_ip node rest ip (ap not e)
            (any_node_ip-IsAddressOf rest ip (rw (any_node_ip, e) at h))
      | inr e ↦
          let same : ok here ≡ ok ip = rw (any_node_ip, e) at h in
          let it : here ≡ ip = cc in
          (node, sym it, (λ gone. ==_false here "" e (it ∙ gone)), inl (ap not e, refl))
    ]

ready_node_ip-cases :
    (rest nodes : List Node) (ip : String)
    → ready_node_ip rest nodes ≡ ok ip
    → IsAddressOf is_usable rest ip
      ⊎ (All (λ n. is_usable n ≡ false) rest × (any_node_ip nodes ≡ ok ip))
unfolding ready_node_ip
ready_node_ip-cases [] nodes ip h = inr (tt, h)
ready_node_ip-cases (node ∷ rest) nodes ip h =
    let here = pick_node_address_ip node.addresses in
    elim (Bool-cases (is_usable node)) [
      | inl e ↦
          let same : ok here ≡ ok ip = rw (ready_node_ip, e) at h in
          let it : here ≡ ip = cc in
          let some_ip = not-true (here == "") (&&-true (is_node_ready node) (has_ip node) e).1 in
          inl (node, sym it, (λ gone. ==_false here "" some_ip (it ∙ gone)), inl (e, refl))
      | inr e ↦ elim (ready_node_ip-cases rest nodes ip (rw (ready_node_ip, e) at h)) [
        | inl found ↦ inl (further is_usable node rest ip e found)
        | inr (none, last) ↦ inr ((e, none), last)
      ]
    ]

preferred :
    (nodes : List Node) (ip : String) → ready_node_ip nodes nodes ≡ ok ip → IsPreferred nodes ip
preferred nodes ip h = elim (ready_node_ip-cases nodes nodes ip h) [
  | inl (node, p, q, first) ↦ (node, p, q, inl first)
  | inr (none, last) ↦
      let (node, p, q, first) = any_node_ip-IsAddressOf nodes ip last in
      (node, p, q, inr (none, first))
]

-- Where resolveNodeIP gives an address, it is not empty, and it is that of the first Ready node that has
-- one; where no Ready node has one, it is that of the first node that has one.
pub resolve_node_ip-IsPreferred :
    (nodes : List Node) (ip : String) → resolve_node_ip (got nodes) ≡ ok ip → IsPreferred nodes ip
unfolding resolve_node_ip
resolve_node_ip-IsPreferred [] ip h = cc
resolve_node_ip-IsPreferred (node ∷ rest) ip h = preferred (node ∷ rest) ip h

abbrev pub is_asked : (target_port : ℤ) → ServicePort → Bool
unfolding eq_int
is_asked target_port p = eq_int p.port target_port || eq_int p.target_port target_port

-- The port that is chosen: the first of all where none is asked for, else the first that is asked for. Its
-- node port is assigned.
abbrev pub IsChosen : (ports : List ServicePort) (target_port node_port : ℤ) → Type 0
IsChosen ports target_port node_port =
    (p : ServicePort) × (node_port ≡ p.node_port)
    × (is_zero node_port ≡ false)
    × IsFirst (λ q. is_zero target_port || is_asked target_port q) ports p

matching-IsChosen :
    (ports : List ServicePort) (target_port : ℤ) (ns name : String) (node_port : ℤ)
    → is_zero target_port ≡ false
    → matching_node_port ports target_port ns name ≡ ok node_port
    → IsChosen ports target_port node_port
unfolding matching_node_port
matching-IsChosen [] target_port ns name node_port z h = cc
matching-IsChosen (p ∷ rest) target_port ns name node_port z h =
    elim (Bool-cases (is_asked target_port p)) [
      | inl asked ↦ elim (Bool-cases (is_zero p.node_port)) [
        | inl gone ↦
            let bad : err (port_unassigned ns name target_port) ≡ ok node_port =
              rw (matching_node_port, asked, gone) at h in
            cc
        | inr there ↦
            let same : ok p.node_port ≡ ok node_port = rw (matching_node_port, asked, there) at h in
            let it : p.node_port ≡ node_port = cc in
            (p, sym it, sym (ap is_zero it) ∙ there, inl (rw (z, asked) refl, refl))
      ]
      | inr other ↦
          let (q, e, n, first) =
            matching-IsChosen rest target_port ns name node_port z
              (rw (matching_node_port, other) at h) in
          (q, e, n, inr (rw (z, other) refl, first))
    ]

-- Where pickNodePort gives a node port, it is assigned, and it is that of the first port of the service
-- where no port is asked for, and else that of the first port whose number or target is the one asked for.
pub pick_node_port-IsChosen :
    (first : ServicePort) (rest : List ServicePort) (target_port : ℤ) (ns name : String)
    (node_port : ℤ)
    → pick_node_port first rest target_port ns name ≡ ok node_port
    → IsChosen (first ∷ rest) target_port node_port
unfolding pick_node_port
pick_node_port-IsChosen first rest target_port ns name node_port h =
    elim (Bool-cases (is_zero target_port)) [
      | inr asked ↦
          matching-IsChosen (first ∷ rest) target_port ns name node_port asked
            (rw (pick_node_port, asked) at h)
      | inl any ↦ elim (Bool-cases (is_zero first.node_port)) [
        | inl gone ↦
            let bad : err (first_port_unassigned ns name) ≡ ok node_port =
              rw (pick_node_port, any, gone) at h in
            cc
        | inr there ↦
            let same : ok first.node_port ≡ ok node_port = rw (pick_node_port, any, there) at h in
            let it : first.node_port ≡ node_port = cc in
            (first, sym it, sym (ap is_zero it) ∙ there, inl (rw any refl, refl))
      ]
    ]
