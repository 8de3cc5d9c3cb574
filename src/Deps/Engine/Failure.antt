-- ===== src/Deps/Engine/Failure.antt =====
-- internal/deps/engine.go: what a failed install leaves behind, and the errors that cannot occur.
use vigie.Prelude.{
  String, Bool, true, false, Option, List, [], ◌∷◌, ◌++◌, All, All-append, Option-cases, Bool-cases,
  inl, inr, if◌then◌else◌,
}
use vigie.Dsl.Types.{Dependency, WaitForSpec}
use vigie.Deps.Dag
use vigie.Deps.Dag.{Batch, build_batches}
use vigie.Deps.Refs
use vigie.Deps.Refs.{resolve_refs}
use vigie.Deps.Exports.{collect_all}
use vigie.Deps.Engine.{
  Env, Installer, Action, store_record, remove, delete_record, Attempt, Choice, install_with,
  refuse, InstallState, wait_for_conditions, uses_cache, cache_hit, after_apply, run_choice,
  choose_installer, install_one, install_batch, first_error, install_batches, install_planned,
  install_resolved, install,
}

-- The action takes nothing from the cluster.
abbrev pub Keeps : Action → Type 0
Keeps (remove i n) = ⊥
Keeps (delete_record n) = ⊥
Keeps _ = Unit

abbrev pub KeepsAll : Attempt → Type 0
KeepsAll a = All Keeps a.actions

module _ (env : Env) where
  wait_for_conditions-KeepsAll :
      (name : String) (specs : List WaitForSpec) → KeepsAll (wait_for_conditions env name specs)
  unfolding wait_for_conditions
  wait_for_conditions-KeepsAll name [] = tt
  wait_for_conditions-KeepsAll name (spec ∷ specs) =
      elim (Bool-cases (env.becomes_ready name spec)) [
        | inl met ↦ rw met (tt, wait_for_conditions-KeepsAll name specs)
        | inr unmet ↦ rw unmet (tt, tt)
      ]

  recorded : (name : String) (b : Bool) → All Keeps (if b then store_record name ∷ [] else [])
  recorded name true = (tt, tt)
  recorded name false = tt

  after_apply-KeepsAll : (i : Installer) (d : Dependency) → KeepsAll (after_apply env i d)
  unfolding after_apply
  after_apply-KeepsAll i d =
      let waits = wait_for_conditions-KeepsAll d.name d.wait_for in
      elim (Option-cases (wait_for_conditions env d.name d.wait_for).error) [
        | inr (e, bad) ↦ rw (bad, after_apply, All) (tt, waits)
        | inl good ↦
            rw (good, after_apply, All)
              (
                tt,
                All-append Keeps (wait_for_conditions env d.name d.wait_for).actions _ waits
                    (recorded d.name (uses_cache env d)),
              )
      ]

  run_choice-KeepsAll : (d : Dependency) (c : Choice) → KeepsAll (run_choice env d c)
  unfolding run_choice
  run_choice-KeepsAll d (refuse e) = tt
  run_choice-KeepsAll d (install_with i) = elim (Bool-cases (env.applies i d)) [
    | inl good ↦ rw good (after_apply-KeepsAll i d)
    | inr bad ↦ rw bad (tt, tt)
  ]

  install_one-KeepsAll : (d : Dependency) → KeepsAll (install_one env d)
  unfolding install_one
  install_one-KeepsAll d = elim (Bool-cases (cache_hit env d)) [
    | inl hit ↦ rw hit tt
    | inr miss ↦ rw miss (run_choice-KeepsAll d (choose_installer d))
  ]

  install_batch-KeepsAll : (batch : Batch) → All KeepsAll (install_batch env batch)
  unfolding install_batch
  install_batch-KeepsAll [] = tt
  install_batch-KeepsAll (d ∷ ds) = (install_one-KeepsAll d, install_batch-KeepsAll ds)

  install_batches-KeepsAll :
      (batches : List Batch) (s : InstallState)
      → All KeepsAll (install_batches env s batches).attempts
  unfolding install_batches
  install_batches-KeepsAll [] s = tt
  install_batches-KeepsAll (batch ∷ batches) s =
      elim (Option-cases (first_error (install_batch env batch))) [
        | inr (e, bad) ↦ rw (bad, install_batches) (install_batch-KeepsAll batch)
        | inl good ↦
            rw (good, install_batches)
              (All-append KeepsAll (install_batch env batch) _ (install_batch-KeepsAll batch) (
                install_batches-KeepsAll batches (record {
                  installed = s.installed ++ batch;
                  exports = collect_all batch s.exports;
                  base_dir = s.base_dir;
                })))
      ]

module _ (env : Env) (range : List String → List String) (load : String → Option (List Dependency))
    (base_dir : String) where
  install_planned-KeepsAll :
      (r : Dag.Result (List Batch))
      → All KeepsAll (install_planned env range load base_dir r).attempts
  unfolding install_planned
  install_planned-KeepsAll (Dag.err e) = tt
  install_planned-KeepsAll (Dag.ok batches) = install_batches-KeepsAll env batches _

  install_resolved-KeepsAll :
      (r : Refs.Result (List Dependency))
      → All KeepsAll (install_resolved env range load base_dir r).attempts
  unfolding install_resolved
  install_resolved-KeepsAll (Refs.err e) = tt
  install_resolved-KeepsAll (Refs.ok resolved) =
      install_planned-KeepsAll (build_batches range resolved)

-- Whatever succeeds or fails, no attempt that Install makes takes anything from the cluster: it
-- removes no dep and deletes no cache record, also when it fails after having installed some deps.
pub install_never_removes :
    (env : Env) (range : List String → List String) (load : String → Option (List Dependency))
    (base_dir : String) (deps : List Dependency)
    → All KeepsAll (install env range load base_dir deps).attempts
unfolding install
install_never_removes env range load base_dir [] = tt
install_never_removes env range load base_dir (d ∷ ds) =
    install_resolved-KeepsAll env range load base_dir (resolve_refs load (d ∷ ds))
