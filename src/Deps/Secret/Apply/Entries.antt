-- ===== src/Deps/Secret/Apply/Entries.antt =====
-- internal/deps/source_secret.go: the entries that the loop over the keys of a Secret dep makes.
use vigie.Prelude.{
  String, ◌≡◌, ◌≢◌, refl, sym, ap, ◌∙◌, inl, inr, false, Bool-cases, Option, none, some, List, [],
  ◌∷◌, ◌==◌, if◌then◌else◌, All, arith, ==→≡, ==_false, ≢→==,
}
use vigie.Dsl.Types.{SecretKeySpec, spec, spec_with_fallback}
use vigie.Deps.Secret.{
  Machine, Answer, produced, nothing, failed, resolve_one_source, resolve_secret_value, alone,
  or_fallback, Probe, Probed, of_fallback,
}
use vigie.Deps.Secret.Apply.{
  Keys, resolved, stopped, key_of, set_key, resolve_key, resolve_keys, store_answer, then_resolve,
}

-- data[key]
abbrev pub value_at : String → List (String × String) → Option String
value_at key [] = none
value_at key ((k, v) ∷ rest) = let later = value_at key rest in if k == key then some v else later

-- The value of an answer.
abbrev pub given : Answer → Option String
given (produced value source) = some value
given nothing = none
given (failed e) = none

value_at-set_key :
    (k key value : String) (held : List (String × String))
    → value_at k (set_key key value held) ≡ (if key == k then some value else value_at k held)
unfolding set_key
value_at-set_key k key value [] = refl
value_at-set_key k key value ((j, v) ∷ rest) =
    let ih = value_at-set_key k key value rest in
    elim (Bool-cases (j == key)) [
      | inl same ↦ elim (Bool-cases (key == k)) [
        | inl hit ↦ ground arith
        | inr missed ↦
            let other : (j == k) ≡ false = ap (λ x. x == k) (==→≡ j key same) ∙ missed in
            ground arith
      ]
      | inr different ↦ elim (Bool-cases (j == k)) [
        | inl hit ↦
            let other : (key == k) ≡ false =
              ≢→== key k (λ e. ==_false j key different (==→≡ j k hit ∙ sym e)) in
            ground arith
        | inr missed ↦ ground (arith, ih)
      ]
    ]

abbrev entries_of : Keys → List (String × String)
entries_of (resolved held) = held
entries_of (stopped e) = []

kept : {a b : List (String × String)} → resolved a ≡ resolved b → a ≡ b
kept h = ap entries_of h

then_resolve-resolved :
    (one : Keys) (rest : List (String × String) → Keys) (out : List (String × String))
    → then_resolve rest one ≡ resolved out
    → (next : List (String × String)) × (one ≡ resolved next) × (rest next ≡ resolved out)
then_resolve-resolved (resolved next) rest out h = (next, refl, h)
then_resolve-resolved (stopped e) rest out h = cc

module _ (m : Machine) (base : String) where
  abbrev pub answer_to : SecretKeySpec → Answer
  answer_to s = (resolve_secret_value m base s).answer

  -- The value of the last spec of a key.
  abbrev pub last_value :
      (key : String) → List SecretKeySpec → (otherwise : Option String) → Option String
  last_value key [] otherwise = otherwise
  last_value key (s ∷ specs) otherwise =
      last_value key specs (if key_of s == key then given (answer_to s) else otherwise)

  pub record HasValue (s : SecretKeySpec) : Type 0 where
    pub named : key_of s ≢ ""
    pub value : String
    pub source : String
    pub answered : answer_to s ≡ produced value source

  alone-ne_nothing : (a : Answer) → alone a ≢ nothing
  alone-ne_nothing (produced value source) h = cc
  alone-ne_nothing nothing h = cc
  alone-ne_nothing (failed e) h = cc

  of_fallback-ne_nothing : (a : Answer) → of_fallback a ≢ nothing
  of_fallback-ne_nothing (produced value source) h = cc
  of_fallback-ne_nothing nothing h = cc
  of_fallback-ne_nothing (failed e) h = cc

  or_fallback-ne_nothing :
      (ps : List Probe) (a : Answer) (rest : Probed) → (or_fallback ps a rest).answer ≢ nothing
  or_fallback-ne_nothing ps (produced value source) rest h = cc
  or_fallback-ne_nothing ps nothing rest h = of_fallback-ne_nothing rest.answer h
  or_fallback-ne_nothing ps (failed e) rest h = cc

  answer_to-ne_nothing : (s : SecretKeySpec) → answer_to s ≢ nothing
  unfolding resolve_secret_value
  answer_to-ne_nothing (spec key env file generate) =
      alone-ne_nothing (resolve_one_source m base env file generate).answer
  answer_to-ne_nothing (spec_with_fallback key env file generate fallback) =
      let one = resolve_one_source m base env file generate in
      or_fallback-ne_nothing one.probes one.answer (resolve_secret_value m base fallback)

  store_answer-resolved :
      (dep : String) (s : SecretKeySpec) (a : Answer) (held out : List (String × String))
      → answer_to s ≡ a
      → key_of s ≢ ""
      → store_answer dep (key_of s) a held ≡ resolved out
      → HasValue s
        × ((k : String) → value_at k out ≡ (if key_of s == k then given a else value_at k held))
  unfolding set_key
  store_answer-resolved dep s (produced value source) held out e n h = (
    record { named = n; value = value; source = source; answered = e },
    λ k. ap (value_at k) (sym (kept h)) ∙ value_at-set_key k (key_of s) value held,
  )
  store_answer-resolved dep s nothing held out e n h = absurd (answer_to-ne_nothing s e)
  store_answer-resolved dep s (failed x) held out e n h = cc

  resolve_key-resolved :
      (dep : String) (s : SecretKeySpec) (held out : List (String × String))
      → resolve_key m base dep s held ≡ resolved out
      → HasValue s
        × ((k : String)
            → value_at k out ≡ (if key_of s == k then given (answer_to s) else value_at k held))
  resolve_key-resolved dep s held out h = elim (Bool-cases (key_of s == "")) [
    | inl blank ↦ absurd (ground arith)
    | inr named ↦
        store_answer-resolved dep s (answer_to s) held out refl (==_false (key_of s) "" named)
          (rw named at h)
  ]

  pub resolve_keys-resolved :
      (dep : String) (specs : List SecretKeySpec) (held out : List (String × String))
      → resolve_keys m base dep specs held ≡ resolved out
      → All HasValue specs × ((k : String) → value_at k out ≡ last_value k specs (value_at k held))
  unfolding resolve_keys
  resolve_keys-resolved dep [] held out h = (tt, λ k. ap (value_at k) (sym (kept h)))
  resolve_keys-resolved dep (s ∷ specs) held out h =
      let (next, e, more) = then_resolve-resolved (resolve_key m base dep s held) _ out h in
      let first = resolve_key-resolved dep s held next e in
      let later = resolve_keys-resolved dep specs next out more in
      ((first.0, later.0), λ k. later.1 k ∙ ap (last_value k specs) (first.1 k))
