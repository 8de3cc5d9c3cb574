-- ===== src/Deps/Refs/Nesting.antt =====
-- internal/deps/source_ref.go: files that refer to one another at most maxRefDepth levels deep are
-- resolved.
use vigie.Prelude.{
  ℕ, zero, suc, ◌<◌, ◌≤◌, String, ◌≡◌, refl, Bool, true, Option, none, some, List, [], ◌∷◌, ◌++◌,
  arith, ◌==◌, All, All-map, Bool-cases, inl, inr, ◌⊎◌, ◌<◌,
}
use vigie.Dsl.Types.{Dependency}
use vigie.Deps.Refs.{
  Result, ok, load_ref_deps, resolve_each, resolve_refs_left, resolve_refs, max_ref_depth,
}
use vigie.Deps.Refs.Resolved.{HasNoRef}

module _ (load : String → Option (List Dependency)) (p : String → Bool) (rank : String → ℕ) where
  -- The dep has no ref, or a ref of `p` with a rank below `n`.
  abbrev pub RanksBelow : ℕ → Dependency → Type 0
  RanksBelow n d = HasNoRef d ⊎ (p d.source.ref ≡ true) × (rank d.source.ref < n)

  -- The file of each ref of `p` is there, and the refs in it rank below it.
  abbrev pub IsNested : Type 0
  IsNested =
      (ref : String)
      → p ref ≡ true
      → (file : List Dependency) × (load ref ≡ some file) × All (RanksBelow (rank ref)) file

  Returns : Result (List Dependency) → Type 0
  Returns r = (l : List Dependency) × (r ≡ ok l)

  each_returns :
      (expand : String → Result (List Dependency)) (n : ℕ)
      → ((ref : String) → p ref ≡ true → rank ref < n → (l : List Dependency) × (expand ref ≡ ok l))
      → (deps : List Dependency) → All (RanksBelow n) deps
      → (l : List Dependency) × (resolve_each expand deps ≡ ok l)
  unfolding resolve_each
  each_returns expand n h [] k = ([], refl)
  each_returns expand n h (d ∷ deps) k =
      let (rest, found) = each_returns expand n h deps k.1 in
      elim (Bool-cases (d.source.ref == "")) [
        | inl e ↦ (d ∷ rest, rw (e, found))
        | inr e ↦ elim k.0 [
          | inl plain ↦ cc
          | inr (member, lower) ↦
              let (first, got) = h d.source.ref member lower in (first ++ rest, rw (e, got, found))
        ]
      ]

  at_file :
      (resolve : List Dependency → Result (List Dependency)) (ref : String)
      (o : Option (List Dependency)) (file : List Dependency)
      → o ≡ some file
      → load ref ≡ o
      → ((l : List Dependency) × (resolve file ≡ ok l))
      → (l : List Dependency) × (load_ref_deps load resolve ref ≡ ok l)
  unfolding load_ref_deps
  at_file resolve ref none file e f r = cc
  at_file resolve ref (some []) file e f r = ([], rw (f, load_ref_deps))
  at_file resolve ref (some (d ∷ deps)) file e f (l, g) =
      let same : file ≡ d ∷ deps = ground arith in (l, rw (f, load_ref_deps) (rw same at g))

  weaken : (m n : ℕ) → m ≤ n → (d : Dependency) → RanksBelow m d → RanksBelow n d
  weaken m n le d (inl plain) = inl plain
  weaken m n le d (inr (member, lower)) = inr (member, omega arith)

  nested :
      IsNested
      → (left : ℕ) (deps : List Dependency) → All (RanksBelow left) deps
      → (l : List Dependency) × (resolve_refs_left load (suc left) deps ≡ ok l)
  unfolding resolve_refs_left
  nested files zero deps h = each_returns _ 0 (λ ref member lower. absurd (omega arith)) deps h
  nested files (suc n) deps h =
      each_returns _ (suc n)
        (λ ref member lower.
          let (file, found, below) = files ref member in
          at_file (resolve_refs_left load (suc n)) ref (load ref) file found refl
            (nested files n file (All-map _ _ file (weaken (rank ref) n (omega arith)) below)))
        deps h

  -- Refs whose files are all there and refer to one another less than eight levels deep are resolved.
  pub resolve_refs_nested :
      (deps : List Dependency)
      → IsNested
      → All (RanksBelow max_ref_depth) deps
      → (result : List Dependency) × (resolve_refs load deps ≡ ok result)
  unfolding resolve_refs
  resolve_refs_nested deps files h = nested files max_ref_depth deps h
