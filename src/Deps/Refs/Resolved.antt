-- ===== src/Deps/Refs/Resolved.antt =====
-- internal/deps/source_ref.go: what resolved deps look like, and which refs are resolved at all.
use vigie.Prelude.{
  ℕ, zero, suc, String, ◌≡◌, refl, Bool, true, false, not, ◌&&◌, ◌||◌, Option, none, some, List, [],
  ◌∷◌, ◌++◌, arith, ◌==◌, if◌then◌else◌, All, All-append, Bool-cases, inl, inr, ◌⊎◌,
}
use vigie.Dsl.Types.{Dependency}
use vigie.Deps.Refs.{
  Result, ok, err, RefError, wrap, max_depth, load_failed, at_dep, load_ref_deps, resolve_each,
  resolve_refs_left, resolve_refs, max_ref_depth, ◌>>=◌,
}

abbrev pub HasNoRef : Dependency → Type 0
HasNoRef d = (d.source.ref == "") ≡ true

-- What a successful step of the loop puts together.
resolve_each-cons :
    (expand : String → Result (List Dependency)) (d : Dependency) (deps result : List Dependency)
    → resolve_each expand (d ∷ deps) ≡ ok result
    → (first rest : List Dependency) × (resolve_each expand deps ≡ ok rest)
      × (result ≡ first ++ rest)
      × (HasNoRef d × (first ≡ d ∷ []) ⊎ (expand d.source.ref ≡ ok first))
unfolding resolve_each
resolve_each-cons expand d deps result h = elim (Bool-cases (d.source.ref == "")) [
  | inl e ↦ plain (resolve_each expand deps) (rw e at h) e
  | inr e ↦ expanded (expand d.source.ref) (resolve_each expand deps) (rw e at h)
]
  where
    plain :
        (r : Result (List Dependency))
        → (r >>= λ l. ok (d ∷ l)) ≡ ok result
        → HasNoRef d
        → (first rest : List Dependency) × (r ≡ ok rest)
          × (result ≡ first ++ rest)
          × (HasNoRef d × (first ≡ d ∷ []) ⊎ (expand d.source.ref ≡ ok first))
    plain (ok l) e n = (d ∷ [], l, refl, ground arith, inl (n, refl))
    plain (err x) e n = cc

    expanded :
        (x r : Result (List Dependency))
        → (wrap d.name d.source.ref x >>= λ l. r >>= λ m. ok (l ++ m)) ≡ ok result
        → (first rest : List Dependency) × (r ≡ ok rest)
          × (result ≡ first ++ rest)
          × (HasNoRef d × (first ≡ d ∷ []) ⊎ (x ≡ ok first))
    expanded (ok l) (ok m) e = (l, m, refl, ground arith, inr refl)
    expanded (ok l) (err y) e = cc
    expanded (err y) r e = cc

empty :
    (expand : String → Result (List Dependency)) (result : List Dependency)
    → resolve_each expand [] ≡ ok result
    → result ≡ []
unfolding resolve_each
empty expand result e = ground arith

load_ref_deps-ok :
    (load : String → Option (List Dependency))
    (resolve : List Dependency → Result (List Dependency)) (ref : String) (l : List Dependency)
    → load_ref_deps load resolve ref ≡ ok l
    → (l ≡ []) ⊎ ((file : List Dependency) × (load ref ≡ some file) × (resolve file ≡ ok l))
unfolding load_ref_deps
load_ref_deps-ok load resolve ref l e = found (load ref) e
  where
    found :
        (o : Option (List Dependency))
        → (elim o [
          | none ↦ err (load_failed ref)
          | some [] ↦ ok []
          | some (d ∷ deps) ↦ resolve (d ∷ deps)
        ])
          ≡ ok l
        → (l ≡ []) ⊎ ((file : List Dependency) × (o ≡ some file) × (resolve file ≡ ok l))
    found none e = cc
    found (some []) e = inl (ground arith)
    found (some (d ∷ deps)) e = inr (d ∷ deps, refl, e)

module _ (load : String → Option (List Dependency)) where
  each-HasNoRef :
      (expand : String → Result (List Dependency))
      → ((ref : String) (l : List Dependency) → expand ref ≡ ok l → All HasNoRef l)
      → (deps result : List Dependency) → resolve_each expand deps ≡ ok result
      → All HasNoRef result
  each-HasNoRef expand h [] result e =
      let none_left : result ≡ [] = empty expand result e in rw none_left tt
  each-HasNoRef expand h (d ∷ deps) result e =
      let (first, rest, e', split, how) = resolve_each-cons expand d deps result e in
      rw split (
        All-append HasNoRef first rest
          (elim how [ inl (n, one) ↦ rw one (n, tt) | inr found ↦ h d.source.ref first found ])
          (each-HasNoRef expand h deps rest e'))

  loaded-HasNoRef :
      (resolve : List Dependency → Result (List Dependency))
      → ((file l : List Dependency) → resolve file ≡ ok l → All HasNoRef l)
      → (ref : String) (l : List Dependency) → load_ref_deps load resolve ref ≡ ok l
      → All HasNoRef l
  loaded-HasNoRef resolve h ref l e = elim (load_ref_deps-ok load resolve ref l e) [
    | inl none_left ↦ rw none_left tt
    | inr (file, _, e') ↦ h file l e'
  ]

  resolved :
      (left : ℕ) (deps result : List Dependency)
      → resolve_refs_left load left deps ≡ ok result
      → All HasNoRef result
  unfolding resolve_refs_left
  resolved zero deps result e = cc
  resolved (suc left) deps result e =
      each-HasNoRef (load_ref_deps load (resolve_refs_left load left))
        (loaded-HasNoRef (resolve_refs_left load left) (resolved left)) deps result e

  -- In resolved deps no `ref` source is left, however deep the files refer to one another.
  pub resolve_refs-HasNoRef :
      (deps result : List Dependency) → resolve_refs load deps ≡ ok result → All HasNoRef result
  unfolding resolve_refs
  resolve_refs-HasNoRef deps result = resolved (suc max_ref_depth) deps result

  each_unchanged :
      (expand : String → Result (List Dependency)) (deps : List Dependency)
      → All HasNoRef deps
      → resolve_each expand deps ≡ ok deps
  unfolding resolve_each
  each_unchanged expand [] h = refl
  each_unchanged expand (d ∷ deps) h = rw (h.0, each_unchanged expand deps h.1)

  -- Deps without a `ref` source are left as they are.
  pub resolve_refs_unchanged :
      (deps : List Dependency) → All HasNoRef deps → resolve_refs load deps ≡ ok deps
  unfolding resolve_refs resolve_refs_left
  resolve_refs_unchanged deps h = each_unchanged _ deps h

  -- Some dep has a source `ref` for which `p` holds.
  abbrev pub refers : (String → Bool) → List Dependency → Bool
  refers p [] = false
  refers p (d ∷ deps) = not (d.source.ref == "") && p d.source.ref || refers p deps

  -- Each file that a ref of `p` names is there, and refers to `p` again.
  abbrev pub IsEndless : (String → Bool) → Type 0
  IsEndless p =
      (ref : String)
      → p ref ≡ true
      → (file : List Dependency) × (load ref ≡ some file) × (refers p file ≡ true)

  -- The loop fails if the rest fails.
  rest_fails :
      (d : Dependency) (b : Bool) (x r : Result (List Dependency)) (e : RefError)
      → r ≡ err e
      → (e' : RefError) × ((if b
            then (r >>= λ l. ok (d ∷ l))
            else (wrap d.name d.source.ref x >>= λ l. r >>= λ m. ok (l ++ m)))
          ≡ err e')
  rest_fails d true x r e h = (e, rw h)
  rest_fails d false (ok l) r e h = (e, rw h)
  rest_fails d false (err y) r e h = (at_dep d.name d.source.ref y, refl)

  each_fails :
      (expand : String → Result (List Dependency)) (p : String → Bool)
      → ((ref : String) → p ref ≡ true → (e : RefError) × (expand ref ≡ err e))
      → (deps : List Dependency) → refers p deps ≡ true
      → (e : RefError) × (resolve_each expand deps ≡ err e)
  unfolding resolve_each
  each_fails expand p h [] m = cc
  each_fails expand p h (d ∷ deps) m =
      elim (Bool-cases (not (d.source.ref == "") && p d.source.ref)) [
        | inl here ↦
            let (e, failed) = h d.source.ref (ground arith) in
            let named : (d.source.ref == "") ≡ false = ground arith in
            (at_dep d.name d.source.ref e, rw (named, failed))
        | inr later ↦
            let (e, failed) = each_fails expand p h deps (ground arith) in
            rest_fails d (d.source.ref == "") (expand d.source.ref) (resolve_each expand deps) e
              failed
      ]

  again :
      (p : String → Bool)
      → IsEndless p
      → (resolve : List Dependency → Result (List Dependency))
      → ((file : List Dependency) → refers p file ≡ true → (e : RefError) × (resolve file ≡ err e))
      → (ref : String) → p ref ≡ true
      → (e : RefError) × (load_ref_deps load resolve ref ≡ err e)
  unfolding load_ref_deps
  again p loop resolve h ref k =
      let (file, found, more) = loop ref k in rw (found, load_ref_deps) (at_file file more)
    where
      at_file :
          (file : List Dependency)
          → refers p file ≡ true
          → (e : RefError) × ((elim (some file) [
            | none ↦ err (load_failed ref)
            | some [] ↦ ok []
            | some (d ∷ deps) ↦ resolve (d ∷ deps)
          ])
              ≡ err e)
      at_file [] m = cc
      at_file (d ∷ deps) m = h (d ∷ deps) m

  endless :
      (p : String → Bool)
      → IsEndless p
      → (left : ℕ) (deps : List Dependency) → refers p deps ≡ true
      → (e : RefError) × (resolve_refs_left load left deps ≡ err e)
  unfolding resolve_refs_left
  endless p loop zero deps m = (max_depth, refl)
  endless p loop (suc left) deps m =
      each_fails (load_ref_deps load (resolve_refs_left load left)) p
        (again p loop (resolve_refs_left load left) (endless p loop left)) deps m

  -- Refs that lead back to one another are refused; the loop through the files always ends.
  pub resolve_refs_endless :
      (p : String → Bool) (deps : List Dependency)
      → IsEndless p
      → refers p deps ≡ true
      → (e : RefError) × (resolve_refs load deps ≡ err e)
  unfolding resolve_refs
  resolve_refs_endless p deps loop m = endless p loop (suc max_ref_depth) deps m
