-- ===== src/Deps/Engine/Ordering.antt =====
-- internal/deps/engine.go: the order of install and of teardown.
use mathlib.Core.List.{Perm, flatten, reverse}
use mathlib.Core.List.Perm
use vigie.Prelude.{
  String, ◌≡◌, refl, sym, subst, ap, ◌∙◌, Option, List, [], ◌∷◌, ◌++◌, arith, contains-append, All,
  All-map, append-nil, append_assoc, Option-cases, inl, inr,
}
use vigie.Prelude.Counting.{Distinct, Distinct-perm, Within}
use vigie.Dsl.Types.{Dependency}
use vigie.Deps.Dag
use vigie.Deps.Dag.{names, Batch, build_batches}
use vigie.Deps.Dag.Loop.{IsIteration}
use vigie.Deps.Dag.Acyclic.{IsOrdered}
use vigie.Deps.Dag.Grouping.{IsStaged}
use vigie.Deps.Dag.Plan.{build_batches_lem, build_batches-Distinct}
use vigie.Deps.Refs
use vigie.Deps.Refs.{resolve_refs}
use vigie.Deps.Exports.{
  empty_exports, collect_all-append, collect_all, get_export, entry, entry_keys, collect_all_lem,
  empty_export,
}
use vigie.Deps.Engine.{
  Env, Attempt, InstallState, done, install_batch, first_error, install_batches, install_planned,
  install_resolved, install, nothing_installed, teardown,
}
use vigie.Deps.Engine.Installed.{AreInstalledBy, install_batches-AreInstalledBy}
use vigie.Deps.Engine.Dismantling.{
  IsDismantling, IsDismantling-reverse, removals, removable, removals-teardown_all,
}

-- All that is known earlier stays known.
IsOrdered-weaken :
    (seen more : List String) (ds : List Dependency)
    → Within seen more
    → IsOrdered seen ds
    → IsOrdered more ds
IsOrdered-weaken seen more [] w o = tt
IsOrdered-weaken seen more (d ∷ ds) w o = (
  λ r m. w r (o.0 r m),
  IsOrdered-weaken (seen ++ d.name ∷ []) (more ++ d.name ∷ []) ds
      (λ x m.
        ground
          (arith, w x, contains-append x seen (d.name ∷ []), contains-append x more (d.name ∷ [])))
      o.1,
)

-- A batch whose prerequisites were all seen, followed by deps that are in order behind it.
IsOrdered-batch :
    (seen : List String) (b rest : List Dependency)
    → All (λ d. Within d.depends_on seen) b
    → IsOrdered (seen ++ names b) rest
    → IsOrdered seen (b ++ rest)
IsOrdered-batch seen [] rest h o = rw append-nil at o
IsOrdered-batch seen (d ∷ b) rest h o = (
  h.0,
  IsOrdered-batch (seen ++ d.name ∷ []) b rest
      (All-map _ _ b (λ c w r m. ground (arith, w r m, contains-append r seen (d.name ∷ []))) h.1)
      (rw append_assoc o),
)

pub IsStaged→IsOrdered :
    (seen : List String) (bs : List Batch) → IsStaged seen bs → IsOrdered seen (flatten bs)
unfolding flatten
IsStaged→IsOrdered seen [] h = tt
IsStaged→IsOrdered seen (b ∷ bs) h =
    IsOrdered-batch seen b (flatten bs) h.0 (IsStaged→IsOrdered (seen ++ names b) bs h.1)

-- A success has installed all batches, in order.
install_batches-done :
    (env : Env) (s s' : InstallState) (bs : List Batch)
    → (install_batches env s bs).outcome ≡ done s'
    → (s'.installed ≡ s.installed ++ flatten bs) × (s'.exports ≡ collect_all (flatten bs) s.exports)
unfolding install_batches flatten
install_batches-done env s s' [] h =
    let same : s ≡ s' = cc in
    (rw append-nil (ap (λ t. t.installed) (sym same)), ap (λ t. t.exports) (sym same))
install_batches-done env s s' (b ∷ bs) h = elim (Option-cases (first_error (install_batch env b))) [
  | inl all_ok ↦
      let s₁ : InstallState = record {
        installed = s.installed ++ b;
        exports = collect_all b s.exports;
        base_dir = s.base_dir;
      } in
      let (installed, exports) =
        install_batches-done env s₁ s' bs (rw (all_ok, install_batches) at h) in
      (
        installed ∙ append_assoc s.installed b (flatten bs),
        exports ∙ sym (collect_all-append b (flatten bs) s.exports),
      )
  | inr (e, failure) ↦ ground arith
]

module _ (env : Env) (range : List String → List String) (iteration : IsIteration range)
    (load : String → Option (List Dependency)) (base_dir : String) where
  -- What a success of Install went through.
  record Success (deps : List Dependency) (made : List Attempt) (s : InstallState) : Type 0 where
    resolved : List Dependency
    resolved_refs : resolve_refs load deps ≡ Refs.ok resolved
    batches : List Batch
    planned : build_batches range resolved ≡ Dag.ok batches
    installed_lem : s.installed ≡ flatten batches
    exports_lem : s.exports ≡ collect_all (flatten batches) empty_exports
    attempts_lem : AreInstalledBy env (flatten batches) made

  from_batches :
      (deps resolved : List Dependency) (s : InstallState) (r : Dag.Result (List Batch))
      → resolve_refs load deps ≡ Refs.ok resolved
      → build_batches range resolved ≡ r
      → (install_planned env range load base_dir r).outcome ≡ done s
      → Success deps (install_planned env range load base_dir r).attempts s
  unfolding install_planned
  from_batches deps resolved s (Dag.err e) found planned h = cc
  from_batches deps resolved s (Dag.ok batches) found planned h =
      let (installed, exports) = install_batches-done env _ s batches h in
      record {
        resolved = resolved;
        resolved_refs = found;
        batches = batches;
        planned = planned;
        installed_lem = installed;
        exports_lem = exports;
        attempts_lem = install_batches-AreInstalledBy env _ s batches h;
      }

  from_refs :
      (deps : List Dependency) (s : InstallState) (r : Refs.Result (List Dependency))
      → resolve_refs load deps ≡ r
      → (install_resolved env range load base_dir r).outcome ≡ done s
      → Success deps (install_resolved env range load base_dir r).attempts s
  unfolding install_resolved
  from_refs deps s (Refs.err e) found h = cc
  from_refs deps s (Refs.ok resolved) found h =
      from_batches deps resolved s (build_batches range resolved) found refl h

  success :
      (deps : List Dependency) (s : InstallState)
      → (install env range load base_dir deps).outcome ≡ done s
      → Success deps (install env range load base_dir deps).attempts s
  unfolding install install_batches flatten collect_all build_batches resolve_refs
  success [] s h =
      let same : nothing_installed env range load base_dir ≡ s = cc in
      record {
        resolved = [];
        resolved_refs = refl;
        batches = [];
        planned = refl;
        installed_lem = ap (λ t. t.installed) (sym same);
        exports_lem = ap (λ t. t.exports) (sym same);
        attempts_lem = tt;
      }
  success (d ∷ ds) s h = from_refs (d ∷ ds) s (resolve_refs load (d ∷ ds)) refl h

  -- Where an iteration over a map meets each key once: after a success of Install the refs are
  -- resolved, and exactly the resolved deps are installed, each once, and each behind all deps that
  -- it depends on. The attempts are one for each of them, in that order, without an error: the cache
  -- had the dep and nothing was done, or the installer of a source that it has succeeded, all its conditions
  -- were then waited for and met, and it was recorded where the cache is used.
  pub install-IsOrdered :
      (deps : List Dependency) (s : InstallState)
      → (install env range load base_dir deps).outcome ≡ done s
      → (resolved : List Dependency) × (resolve_refs load deps ≡ Refs.ok resolved)
        × Perm s.installed resolved
        × IsOrdered [] s.installed
        × AreInstalledBy env s.installed (install env range load base_dir deps).attempts
  install-IsOrdered deps s h =
      let w = success deps s h in
      let (same, staged) = build_batches_lem range iteration w.resolved w.batches w.planned in
      (
        w.resolved,
        w.resolved_refs,
        subst (λ ds. Perm ds w.resolved) (sym w.installed_lem) same,
        subst (IsOrdered []) (sym w.installed_lem) (IsStaged→IsOrdered [] w.batches staged),
        subst (λ ds. AreInstalledBy env ds (install env range load base_dir deps).attempts)
            (sym w.installed_lem) w.attempts_lem,
      )

  -- Where an iteration over a map meets each key once: after a success of Install whose deps each
  -- export a key at most once, the exports of each installed dep are found as it declares them.
  pub install-exports :
      (deps : List Dependency) (s : InstallState)
      → (install env range load base_dir deps).outcome ≡ done s
      → All (λ d. Distinct (entry_keys d.exports)) s.installed
      → All (λ d. (k : String) → get_export s.exports d.name k ≡ entry k d.exports) s.installed
  install-exports deps s h keys =
      let w = success deps s h in
      let (same, _) = build_batches_lem range iteration w.resolved w.batches w.planned in
      let distinct : Distinct (names s.installed) = rw w.installed_lem (
        Distinct-perm (Perm.symm (Perm.map (λ (d : Dependency). d.name) same))
          (build_batches-Distinct range iteration w.resolved w.batches w.planned)) in
      rw (w.exports_lem, ← w.installed_lem)
        (collect_all_lem empty_exports s.installed distinct keys
          (λ name k known. empty_export name k))

  -- Where an iteration over a map meets each key once: after a success of Install, and whatever
  -- each removal answers, all installed deps that have something to tear down are torn down, the
  -- last installed first, so each goes while all deps that it depends on are still there.
  pub teardown-IsDismantling :
      (deps : List Dependency) (s : InstallState)
      → (install env range load base_dir deps).outcome ≡ done s
      → (removals (teardown env s).0 ≡ names (removable (reverse s.installed)))
        × IsDismantling [] (reverse s.installed)
  unfolding teardown
  teardown-IsDismantling deps s h =
      let (_, _, _, ordered, _) = install-IsOrdered deps s h in
      (
        removals-teardown_all env (reverse s.installed),
        IsDismantling-reverse [] s.installed ordered,
      )
