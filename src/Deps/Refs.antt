-- ===== src/Deps/Refs.antt =====
-- internal/deps/source_ref.go: deps whose source is a `ref` are replaced by the deps of the file
-- that the ref names. Reading and parsing a file is the parameter `load`, `none` where either fails.
pub mod Resolved
pub mod Nesting
pub mod Samples
use vigie.Prelude.{
  ℕ, zero, suc, String, ◌≡◌, ◌≢◌, refl, ap, Bool, true, false, Option, none, some, List, [], ◌∷◌,
  ◌++◌, arith, ◌==◌, eq_iff, if◌then◌else◌, All, All-append, Bool-cases, inl, inr,
}
use vigie.Dsl.Types.{Dependency}

pub data RefError : Type 0 where
  max_depth : RefError
  load_failed : (ref : String) → RefError
  -- the error of a dep's ref, with the dep's name
  at_dep : (dep ref : String) → RefError → RefError

pub data Result (A : Type 0) : Type 0 where
  ok : A → Result A
  err : RefError → Result A

infixl 5 ◌>>=◌
abbrev pub ◌>>=◌ : {A B : Type 0} → Result A → (next : A → Result B) → Result B
err problem >>= next = err problem
ok value >>= next = next value

-- fmt.Errorf("dep %q: loading ref %q: %w", ...)
abbrev pub wrap : (dep ref : String) → {A : Type 0} → Result A → Result A
wrap dep ref (ok a) = ok a
wrap dep ref (err e) = err (at_dep dep ref e)

abbrev pub max_ref_depth : ℕ
max_ref_depth = 8

-- loadRefDeps: `resolve` is resolveRefsDepth one level deeper.
unfoldable pub load_ref_deps :
    (String → Option (List Dependency))
    → (List Dependency → Result (List Dependency))
    → String
    → Result (List Dependency)
load_ref_deps load resolve ref = elim (load ref) [
  | none ↦ err (load_failed ref)
  | some [] ↦ ok []
  | some (d ∷ deps) ↦ resolve (d ∷ deps)
]

-- The loop of resolveRefsDepth.
unfoldable pub resolve_each :
    (String → Result (List Dependency)) → List Dependency → Result (List Dependency)
resolve_each expand [] = ok []
resolve_each expand (dep ∷ deps) =
    let rest = resolve_each expand deps in
    if dep.source.ref == "" then (do result ← rest; ok (dep ∷ result)) else (do
      expanded ← wrap dep.name dep.source.ref (expand dep.source.ref)
      result ← rest
      ok (expanded ++ result))

-- resolveRefsDepth, by recursion on the levels left: at depth d there are maxRefDepth + 1 - d.
unfoldable pub resolve_refs_left :
    (String → Option (List Dependency)) → ℕ → List Dependency → Result (List Dependency)
unfolding resolve_each load_ref_deps
resolve_refs_left load zero deps = err max_depth
resolve_refs_left load (suc left) deps =
    resolve_each (load_ref_deps load (resolve_refs_left load left)) deps

unfoldable pub resolve_refs :
    (String → Option (List Dependency)) → List Dependency → Result (List Dependency)
unfolding resolve_refs_left
resolve_refs load = resolve_refs_left load (suc max_ref_depth)
