-- ===== src/Dsl/Ceiling/Ladder.antt =====
-- internal/dsl/capability.go: the tiers are a ladder.
use vigie.Prelude.{
  String, ◌≡◌, refl, ◌∙◌, Bool, true, false, ◌&&◌, List, [], ◌∷◌, ◌++◌, ◌==◌, if◌then◌else◌,
  contains, inl, inr, Bool-cases, ==→≡, arith,
}
use vigie.Prelude.Int.{leb_int}
use vigie.Dsl.Capability.{
  Capability, all_tiers, tier_provides, covers, tiers_providing, tier_rank, runnable_tiers,
}
use vigie.Dsl.Ceiling.{lowest_runnable_tier_for}

-- A tier is one of the four, or not in the ladder at all.
pub data TierCase : String → Type 0 where
  is_template : TierCase "template"
  is_apiserver : TierCase "apiserver"
  is_simulated : TierCase "simulated"
  is_e2e : TierCase "e2e"
  is_unknown :
      {t : String}
      → ("template" == t) ≡ false
      → ("apiserver" == t) ≡ false
      → ("simulated" == t) ≡ false
      → ("e2e" == t) ≡ false
      → TierCase t

pub tier-case : (t : String) → TierCase t
tier-case t = elim (Bool-cases ("template" == t)) [
  | inl e ↦ rw (← ==→≡ "template" t e) is_template
  | inr e1 ↦ elim (Bool-cases ("apiserver" == t)) [
    | inl e ↦ rw (← ==→≡ "apiserver" t e) is_apiserver
    | inr e2 ↦ elim (Bool-cases ("simulated" == t)) [
      | inl e ↦ rw (← ==→≡ "simulated" t e) is_simulated
      | inr e3 ↦ elim (Bool-cases ("e2e" == t)) [
        | inl e ↦ rw (← ==→≡ "e2e" t e) is_e2e
        | inr e4 ↦ is_unknown e1 e2 e3 e4
      ]
    ]
  ]
]

-- A tier provides what the one below it provides.
climb_template :
    (c : Capability) → tier_provides "template" c ≡ true → tier_provides "apiserver" c ≡ true
unfolding tier_provides
climb_template c h = ground arith

climb_apiserver :
    (c : Capability) → tier_provides "apiserver" c ≡ true → tier_provides "simulated" c ≡ true
unfolding tier_provides
climb_apiserver c h = ground arith

climb_simulated :
    (c : Capability) → tier_provides "simulated" c ≡ true → tier_provides "e2e" c ≡ true
unfolding tier_provides
climb_simulated c h = ground arith

pub covers_mono :
    (p q : Capability → Bool) (needs : List Capability)
    → ((c : Capability) → p c ≡ true → q c ≡ true)
    → covers p needs ≡ true
    → covers q needs ≡ true
covers_mono p q [] f h = refl
covers_mono p q (need ∷ needs) f h =
    let head : p need ≡ true = ground arith in
    let tail : covers p needs ≡ true = ground arith in
    rw (f need head) (covers_mono p q needs f tail)

unknown-provides :
    (t : String) (c : Capability) → contains t all_tiers ≡ false → tier_provides t c ≡ false
unfolding tier_provides
unknown-provides t c h = ground arith

climb :
    {t u : String} (c : Capability)
    → TierCase t
    → TierCase u
    → leb_int (tier_rank t) (tier_rank u) ≡ true
    → tier_provides t c ≡ true
    → tier_provides u c ≡ true
unfolding leb_int tier_rank
climb c is_template is_template le h = h
climb c is_template is_apiserver le h = climb_template c h
climb c is_template is_simulated le h = climb_apiserver c (climb_template c h)
climb c is_template is_e2e le h = climb_simulated c (climb_apiserver c (climb_template c h))
climb c is_apiserver is_template le h = cc
climb c is_apiserver is_apiserver le h = h
climb c is_apiserver is_simulated le h = climb_apiserver c h
climb c is_apiserver is_e2e le h = climb_simulated c (climb_apiserver c h)
climb c is_simulated is_template le h = cc
climb c is_simulated is_apiserver le h = cc
climb c is_simulated is_simulated le h = h
climb c is_simulated is_e2e le h = climb_simulated c h
climb c is_e2e is_template le h = cc
climb c is_e2e is_apiserver le h = cc
climb c is_e2e is_simulated le h = cc
climb c is_e2e is_e2e le h = h
climb {t = t} c (is_unknown n1 n2 n3 n4) w le h =
    let none_provided : tier_provides t c ≡ false =
      unknown-provides t c (rw (n1, n2, n3, n4) refl) in
    cc
climb c is_template (is_unknown n1 n2 n3 n4) le h = ground arith
climb c is_apiserver (is_unknown n1 n2 n3 n4) le h = ground arith
climb c is_simulated (is_unknown n1 n2 n3 n4) le h = ground arith
climb c is_e2e (is_unknown n1 n2 n3 n4) le h = ground arith

-- A tier at or above another in the ladder provides all that the other provides.
pub tier_provides-climb :
    (t u : String) (c : Capability)
    → leb_int (tier_rank t) (tier_rank u) ≡ true
    → tier_provides t c ≡ true
    → tier_provides u c ≡ true
tier_provides-climb t u c = climb c (tier-case t) (tier-case u)

-- What is left of the ladder when each kept tier keeps the ones above it.
ladder_suffix :
    (b1 b2 b3 b4 : Bool)
    → (b1 ≡ true → b2 ≡ true)
    → (b2 ≡ true → b3 ≡ true)
    → (b3 ≡ true → b4 ≡ true)
    → (lower : List String) × (lower
          ++ (let l4 = (if b4 then "e2e" ∷ [] else []) in
              let l3 = (if b3 then "simulated" ∷ l4 else l4) in
              let l2 = (if b2 then "apiserver" ∷ l3 else l3) in if b1 then "template" ∷ l2 else l2)
        ≡ all_tiers)
ladder_suffix true true true true f g h = ([], refl)
ladder_suffix false true true true f g h = ("template" ∷ [], refl)
ladder_suffix false false true true f g h = ("template" ∷ "apiserver" ∷ [], refl)
ladder_suffix false false false true f g h = ("template" ∷ "apiserver" ∷ "simulated" ∷ [], refl)
ladder_suffix false false false false f g h = (all_tiers, refl)
ladder_suffix true false b3 b4 f g h = let bad = f refl in cc
ladder_suffix b1 true false b4 f g h = let bad = g refl in cc
ladder_suffix b1 b2 true false f g h = let bad = h refl in cc

kept :
    (needs : List Capability) (t : String)
    → TierCase t
    → contains t (tiers_providing needs) ≡ (contains t all_tiers && covers (tier_provides t) needs)
unfolding tiers_providing
kept needs t is_template = ground arith
kept needs t is_apiserver = ground arith
kept needs t is_simulated = ground arith
kept needs t is_e2e = ground arith
kept needs t (is_unknown n1 n2 n3 n4) = ground arith

-- The tiers that provide the needs are a suffix of the ladder: what is below them, and they, are
-- all tiers. A tier is among them exactly when it is a tier and provides each need.
pub tiers_providing_lem :
    (needs : List Capability)
    → ((lower : List String) × (lower ++ tiers_providing needs ≡ all_tiers))
      × ((t : String)
          → contains t (tiers_providing needs)
            ≡ (contains t all_tiers && covers (tier_provides t) needs))
unfolding tiers_providing
tiers_providing_lem needs = (
  ladder_suffix (covers (tier_provides "template") needs) (covers (tier_provides "apiserver") needs)
      (covers (tier_provides "simulated") needs) (covers (tier_provides "e2e") needs)
      (covers_mono _ _ needs climb_template) (covers_mono _ _ needs climb_apiserver)
      (covers_mono _ _ needs climb_simulated),
  λ t. kept needs t (tier-case t),
)

tier_ranked :
    (t : String) → TierCase t → leb_int (tier_rank "template") (tier_rank t) ≡ contains t all_tiers
unfolding tier_rank leb_int
tier_ranked t is_template = refl
tier_ranked t is_apiserver = refl
tier_ranked t is_simulated = refl
tier_ranked t is_e2e = refl
tier_ranked t (is_unknown n1 n2 n3 n4) = rw (n1, n2, n3, n4) refl

lowest :
    (needs : List Capability)
    → lowest_runnable_tier_for needs ≡ (
        if covers (tier_provides "template") needs
        then "template"
        else if covers (tier_provides "apiserver") needs
        then "apiserver"
        else "e2e")
unfolding lowest_runnable_tier_for tiers_providing runnable_tiers
lowest needs = ground arith

-- The tier is at or below each tier that vigie can run and that provides the needs.
abbrev pub IsLowest : String → List Capability → Type 0
IsLowest tier needs =
    (t : String)
    → contains t runnable_tiers ≡ true
    → covers (tier_provides t) needs ≡ true
    → leb_int (tier_rank tier) (tier_rank t) ≡ true

template-IsLowest : (needs : List Capability) → IsLowest "template" needs
unfolding runnable_tiers tier_rank leb_int
template-IsLowest needs t r c = go t (tier-case t) r
  where
    go :
        (t : String)
        → TierCase t
        → contains t runnable_tiers ≡ true
        → leb_int (tier_rank "template") (tier_rank t) ≡ true
    go t is_template r = ground arith
    go t is_apiserver r = ground arith
    go t is_simulated r = ground arith
    go t is_e2e r = ground arith
    go t (is_unknown n1 n2 n3 n4) r = ground arith

apiserver-IsLowest :
    (needs : List Capability)
    → covers (tier_provides "template") needs ≡ false
    → IsLowest "apiserver" needs
unfolding runnable_tiers tier_rank leb_int
apiserver-IsLowest needs e1 t r c = go t (tier-case t) r c
  where
    go :
        (t : String)
        → TierCase t
        → contains t runnable_tiers ≡ true
        → covers (tier_provides t) needs ≡ true
        → leb_int (tier_rank "apiserver") (tier_rank t) ≡ true
    go t is_template r c = cc
    go t is_apiserver r c = ground arith
    go t is_simulated r c = ground arith
    go t is_e2e r c = ground arith
    go t (is_unknown n1 n2 n3 n4) r c = ground arith

e2e-IsLowest :
    (needs : List Capability)
    → covers (tier_provides "template") needs ≡ false
    → covers (tier_provides "apiserver") needs ≡ false
    → IsLowest "e2e" needs
unfolding runnable_tiers tier_rank leb_int
e2e-IsLowest needs e1 e2 t r c = go t (tier-case t) r c
  where
    go :
        (t : String)
        → TierCase t
        → contains t runnable_tiers ≡ true
        → covers (tier_provides t) needs ≡ true
        → leb_int (tier_rank "e2e") (tier_rank t) ≡ true
    go t is_template r c = cc
    go t is_apiserver r c = cc
    go t is_simulated r c = ground arith
    go t is_e2e r c = ground arith
    go t (is_unknown n1 n2 n3 n4) r c = ground arith

-- If the most capable tier provides the needs, then the tier that is suggested for them is one that
-- vigie can run and provides them, and each tier that does so is at or above it.
pub lowest_runnable_tier_for_lem :
    (needs : List Capability)
    → covers (tier_provides "e2e") needs ≡ true
    → (contains (lowest_runnable_tier_for needs) runnable_tiers ≡ true)
      × (covers (tier_provides (lowest_runnable_tier_for needs)) needs ≡ true)
      × IsLowest (lowest_runnable_tier_for needs) needs
unfolding runnable_tiers tier_rank leb_int
lowest_runnable_tier_for_lem needs h = elim (Bool-cases (covers (tier_provides "template") needs)) [
  | inl e1 ↦
      let l : lowest_runnable_tier_for needs ≡ "template" = lowest needs ∙ rw e1 refl in
      rw l (refl, e1, template-IsLowest needs)
  | inr e1 ↦ elim (Bool-cases (covers (tier_provides "apiserver") needs)) [
    | inl e2 ↦
        let l : lowest_runnable_tier_for needs ≡ "apiserver" = lowest needs ∙ rw (e1, e2) refl in
        rw l (refl, e2, apiserver-IsLowest needs e1)
    | inr e2 ↦
        let l : lowest_runnable_tier_for needs ≡ "e2e" = lowest needs ∙ rw (e1, e2) refl in
        rw l (refl, h, e2e-IsLowest needs e1 e2)
  ]
]
