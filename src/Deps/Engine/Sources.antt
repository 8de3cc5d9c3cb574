-- ===== src/Deps/Engine/Sources.antt =====
-- internal/deps/engine.go: which installer a dep gets, and when the install of one dep succeeds.
use vigie.Prelude.{
  String, ◌≡◌, ◌↔◌, ◌⊎◌, inl, inr, refl, true, Option, none, some, List, [], ◌∷◌, arith, All,
  Bool-cases,
}
use vigie.Dsl.Types.{Dependency, WaitForSpec}
use vigie.Deps.Refs.Resolved.{HasNoRef}
use vigie.Deps.Engine.{
  Env, Installer, Choice, install_with, refuse, choose_installer, choose_teardown,
  wait_for_conditions, cache_hit, after_apply, run_choice, install_one, InstallError, no_source,
}

-- The installer of a choice, if it is no refusal.
abbrev pub chosen : Choice → Option Installer
chosen (install_with i) = some i
chosen (refuse e) = none

-- A dep without a `ref` source is torn down by the installer that installs it, and has nothing to
-- tear down exactly when the install refuses it; that refusal says that it has no source.
pub choose_teardown-choose_installer :
    (d : Dependency)
    → HasNoRef d
    → (choose_teardown d ≡ chosen (choose_installer d))
      × ((e : InstallError) → choose_installer d ≡ refuse e → e ≡ no_source d.name)
unfolding choose_installer choose_teardown
choose_teardown-choose_installer d h = (ground arith, λ e r. ground arith)

module _ (env : Env) where
  pub wait_for_conditions-ok :
      (name : String) (specs : List WaitForSpec)
      → ((wait_for_conditions env name specs).error ≡ none)
        ↔ All (λ spec. env.becomes_ready name spec ≡ true) specs
  unfolding wait_for_conditions
  wait_for_conditions-ok name [] = (λ e. tt, λ a. refl)
  wait_for_conditions-ok name (spec ∷ specs) =
      let ih = wait_for_conditions-ok name specs in
      (λ e. (ground arith, ih.0 (ground arith)), λ a. rw a.0 (ih.1 a.1))

  after_apply-ok :
      (i : Installer) (d : Dependency)
      → ((after_apply env i d).error ≡ none)
        ↔ All (λ spec. env.becomes_ready d.name spec ≡ true) d.wait_for
  unfolding after_apply
  after_apply-ok i d =
      let waits = wait_for_conditions-ok d.name d.wait_for in
      (λ e. waits.0 (ground arith), λ ready. let no_error = waits.1 ready in ground arith)

  -- The source's installer succeeds and all conditions are met.
  abbrev pub Installs : Dependency → Choice → Type 0
  Installs d (refuse e) = ⊥
  Installs d (install_with i) =
      (env.applies i d ≡ true) × All (λ spec. env.becomes_ready d.name spec ≡ true) d.wait_for

  run_choice-ok : (d : Dependency) (c : Choice) → ((run_choice env d c).error ≡ none) ↔ Installs d c
  unfolding run_choice
  run_choice-ok d (refuse e) = (λ h. cc, λ h. absurd h)
  run_choice-ok d (install_with i) =
      let applied = after_apply-ok i d in
      elim (Bool-cases (env.applies i d)) [
        | inl good ↦ (λ e. (good, applied.0 (rw good at e)), λ h. rw good (applied.1 h.1))
        | inr bad ↦ (λ e. ground arith, λ h. ground arith)
      ]

  -- A dep is installed without an error exactly when the cache has it, or its source has an installer
  -- that succeeds and all its conditions are met.
  pub install_one-ok :
      (d : Dependency)
      → ((install_one env d).error ≡ none)
        ↔ ((cache_hit env d ≡ true) ⊎ Installs d (choose_installer d))
  unfolding install_one
  install_one-ok d =
      let chosen_ok = run_choice-ok d (choose_installer d) in
      elim (Bool-cases (cache_hit env d)) [
        | inl hit ↦ (λ e. inl hit, λ h. rw hit)
        | inr miss ↦ (
          λ e. inr (chosen_ok.0 (rw miss at e)),
          λ h. rw miss (chosen_ok.1 (elim h [ inl hit ↦ cc | inr installs ↦ installs ])),
        )
      ]
