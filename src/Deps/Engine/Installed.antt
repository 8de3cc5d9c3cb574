-- ===== src/Deps/Engine/Installed.antt =====
-- internal/deps/engine.go: what the attempts of an install without an error did.
use mathlib.Core.List.{flatten}
use vigie.Prelude.{
  String, ◌≡◌, ◌≢◌, ◌⊎◌, inl, inr, ==_false, ◌==◌, refl, sym, subst, true, none, List, [], ◌∷◌,
  ◌++◌, map, arith, All, Bool-cases, Option-cases, if◌then◌else◌,
}
use vigie.Dsl.Types.{Dependency, WaitForSpec}
use vigie.Deps.Dag.{Batch}
use vigie.Deps.Exports.{collect_all}
use vigie.Deps.Engine.{
  Env, Installer, helm, manifest, kustomize, secret, apply, wait_for, store_record, Attempt, Choice,
  install_with, refuse, choose_installer, unresolved_ref, no_source, wait_for_conditions,
  uses_cache, cache_hit, after_apply, run_choice, install_one, install_batch, first_error,
  InstallState, done, install_batches,
}
use vigie.Deps.Engine.Sources.{wait_for_conditions-ok}

-- The dep has a source of this kind.
abbrev pub HasSource : Dependency → Installer → Type 0
HasSource d helm = d.source.helm ≢ none
HasSource d manifest = d.source.manifest ≢ ""
HasSource d kustomize = d.source.kustomize ≢ ""
HasSource d secret = d.source.secret ≢ none

choose_installer-HasSource :
    (d : Dependency) (i : Installer) → choose_installer d ≡ install_with i → HasSource d i
unfolding choose_installer
choose_installer-HasSource d i h = elim (Option-cases d.source.helm) [
  | inr (spec, e) ↦
      let same : install_with helm ≡ install_with i = rw (choose_installer, e) at h in
      let it : helm ≡ i = cc in subst (HasSource d) it (λ gone. cc)
  | inl no_helm ↦ elim (Bool-cases (d.source.manifest == "")) [
    | inr named ↦
        let same : install_with manifest ≡ install_with i =
          rw (choose_installer, no_helm, named) at h in
        let it : manifest ≡ i = cc in subst (HasSource d) it (==_false d.source.manifest "" named)
    | inl m ↦ elim (Bool-cases (d.source.kustomize == "")) [
      | inr named ↦
          let same : install_with kustomize ≡ install_with i =
            rw (choose_installer, no_helm, m, named) at h in
          let it : kustomize ≡ i = cc in
          subst (HasSource d) it (==_false d.source.kustomize "" named)
      | inl k ↦ elim (Bool-cases (d.source.ref == "")) [
        | inr named ↦
            let bad : refuse (unresolved_ref d.name d.source.ref) ≡ install_with i =
              rw (choose_installer, no_helm, m, k, named) at h in
            cc
        | inl r ↦ elim (Option-cases d.source.secret) [
          | inr (spec, e) ↦
              let same : install_with secret ≡ install_with i =
                rw (choose_installer, no_helm, m, k, r, e) at h in
              let it : secret ≡ i = cc in subst (HasSource d) it (λ gone. cc)
          | inl e ↦
              let bad : refuse (no_source d.name) ≡ install_with i =
                rw (choose_installer, no_helm, m, k, r, e) at h in
              cc
        ]
      ]
    ]
  ]
]

module _ (env : Env) where
  -- The dep was in the cache, and nothing was done. Or the installer of a source that it has succeeded, behind it each
  -- condition was waited for in order and met, and then the dep was recorded where the cache is used.
  abbrev pub IsInstalledBy : Dependency → Attempt → Type 0
  IsInstalledBy d a =
      (a.error ≡ none)
      × (((cache_hit env d ≡ true) × (a.actions ≡ []))
          ⊎ ((i : Installer) × HasSource d i
              × (env.applies i d ≡ true)
              × All (λ spec. env.becomes_ready d.name spec ≡ true) d.wait_for
              × (a.actions
                  ≡ apply i d.name
                    ∷ (map (wait_for d.name) d.wait_for
                        ++ (if uses_cache env d then store_record d.name ∷ [] else [])))))

  -- One attempt for each dep, in their order.
  abbrev pub AreInstalledBy : List Dependency → List Attempt → Type 0
  AreInstalledBy [] [] = Unit
  AreInstalledBy (d ∷ ds) (a ∷ attempts) = IsInstalledBy d a × AreInstalledBy ds attempts
  AreInstalledBy _ _ = ⊥

  wait_for_conditions-actions :
      (name : String) (specs : List WaitForSpec)
      → (wait_for_conditions env name specs).error ≡ none
      → (wait_for_conditions env name specs).actions ≡ map (wait_for name) specs
  unfolding wait_for_conditions
  wait_for_conditions-actions name [] h = refl
  wait_for_conditions-actions name (spec ∷ specs) h =
      elim (Bool-cases (env.becomes_ready name spec)) [
        | inl ready ↦ rw (ready, wait_for_conditions-actions name specs (rw ready at h)) refl
        | inr never ↦ ground arith
      ]

  run_choice-IsInstalledBy :
      (d : Dependency) (c : Choice)
      → choose_installer d ≡ c
      → (run_choice env d c).error ≡ none
      → IsInstalledBy d (run_choice env d c)
  unfolding run_choice after_apply
  run_choice-IsInstalledBy d (refuse e) chosen h = cc
  run_choice-IsInstalledBy d (install_with i) chosen h = elim (Bool-cases (env.applies i d)) [
    | inr bad ↦ ground arith
    | inl good ↦ elim (Option-cases (wait_for_conditions env d.name d.wait_for).error) [
      | inr (e, late) ↦ ground arith
      | inl met ↦
          let waits = wait_for_conditions-actions d.name d.wait_for met in
          rw (good, after_apply, met, waits)
            (
              refl,
              inr (
                i,
                choose_installer-HasSource d i chosen,
                good,
                (wait_for_conditions-ok env d.name d.wait_for).0 met,
                refl,
              ),
            )
    ]
  ]

  install_one-IsInstalledBy :
      (d : Dependency) → (install_one env d).error ≡ none → IsInstalledBy d (install_one env d)
  unfolding install_one
  install_one-IsInstalledBy d h = elim (Bool-cases (cache_hit env d)) [
    | inl hit ↦ rw hit (refl, inl (refl, refl))
    | inr miss ↦
        let same : install_one env d ≡ run_choice env d (choose_installer d) = rw miss refl in
        subst (IsInstalledBy d) (sym same)
          (run_choice-IsInstalledBy d (choose_installer d) refl (rw miss at h))
  ]

  install_batch-AreInstalledBy :
      (b : Batch)
      → first_error (install_batch env b) ≡ none
      → AreInstalledBy b (install_batch env b)
  unfolding install_batch first_error
  install_batch-AreInstalledBy [] h = tt
  install_batch-AreInstalledBy (d ∷ ds) h = elim (Option-cases (install_one env d).error) [
    | inr (e, failed) ↦ ground arith
    | inl good ↦ (
      install_one-IsInstalledBy d good,
      install_batch-AreInstalledBy ds (rw (first_error, good) at h),
    )
  ]

  AreInstalledBy-append :
      (ds es : List Dependency) (made more : List Attempt)
      → AreInstalledBy ds made
      → AreInstalledBy es more
      → AreInstalledBy (ds ++ es) (made ++ more)
  AreInstalledBy-append [] es [] more h k = k
  AreInstalledBy-append [] es (a ∷ made) more h k = absurd h
  AreInstalledBy-append (d ∷ ds) es [] more h k = absurd h
  AreInstalledBy-append (d ∷ ds) es (a ∷ made) more h k =
      (h.0, AreInstalledBy-append ds es made more h.1 k)

  pub install_batches-AreInstalledBy :
      (s s' : InstallState) (bs : List Batch)
      → (install_batches env s bs).outcome ≡ done s'
      → AreInstalledBy (flatten bs) (install_batches env s bs).attempts
  unfolding install_batches flatten
  install_batches-AreInstalledBy s s' [] h = tt
  install_batches-AreInstalledBy s s' (b ∷ bs) h =
      elim (Option-cases (first_error (install_batch env b))) [
        | inr (e, failure) ↦ ground arith
        | inl good ↦
            rw (install_batches, good)
              (AreInstalledBy-append b (flatten bs) _ _ (install_batch-AreInstalledBy b good) (
                install_batches-AreInstalledBy
                  (record {
                    installed = s.installed ++ b;
                    exports = collect_all b s.exports;
                    base_dir = s.base_dir;
                  })
                  s' bs (rw (good, install_batches) at h)))
      ]
