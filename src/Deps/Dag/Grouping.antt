-- ===== src/Deps/Dag/Grouping.antt =====
-- internal/deps/dag.go, buildLevelBatches: the loop that appends each dep to the batch of its level.
use mathlib.Core.List.{Perm, flatten, perm_middle}
use mathlib.Core.List.Perm
use vigie.Prelude.{
  ℕ, zero, suc, ◌+◌, ◌≤◌, ◌<◌, String, ◌≡◌, refl, ap, true, List, [], ◌∷◌, ◌++◌, arith, ◌==◌,
  length, contains, contains-append, All, All-append, inl, inr, Bool-cases, append_assoc,
  append-nil, ==→≡,
}
use vigie.Prelude.Counting.{Within}
use vigie.Dsl.Types.{Dependency}
use vigie.Deps.Dag.{names, Batch, append_at, group, empty_batches}

-- The names in the batches.
unfoldable pub batch_names : List Batch → List String
batch_names [] = []
batch_names (b ∷ bs) = names b ++ batch_names bs

-- Each dep's prerequisites stand in earlier batches; `seen` holds what came before the list.
abbrev pub IsStaged : List String → List Batch → Type 0
IsStaged seen [] = Unit
IsStaged seen (b ∷ bs) = All (λ d. Within d.depends_on seen) b × IsStaged (seen ++ names b) bs

abbrev pub AllBatches : (Dependency → Type 0) → List Batch → Type 0
AllBatches P bs = All (All P) bs

-- The deps of the batch at position j have the level i + j.
abbrev pub AtLevels : (String → ℕ) → ℕ → List Batch → Type 0
AtLevels level i [] = Unit
AtLevels level i (b ∷ bs) = All (λ d. level d.name ≡ i) b × AtLevels level (suc i) bs

module _ (dep : Dependency) where
  length-append_at : (k : ℕ) (bs : List Batch) → length (append_at k dep bs) ≡ length bs
  unfolding append_at
  length-append_at k [] = refl
  length-append_at zero (b ∷ bs) = refl
  length-append_at (suc k) (b ∷ bs) = ap suc (length-append_at k bs)

  append_at-perm :
      (k : ℕ) (bs : List Batch)
      → k < length bs
      → Perm (flatten (append_at k dep bs)) (dep ∷ flatten bs)
  unfolding append_at flatten
  append_at-perm k [] h = absurd (omega arith)
  append_at-perm zero (b ∷ bs) h = rw append_assoc (perm_middle b (flatten bs))
  append_at-perm (suc k) (b ∷ bs) h =
      Perm.trans (Perm.append_left b (append_at-perm k bs (omega arith)))
        (perm_middle b (flatten bs))

  AllBatches-append_at :
      (P : Dependency → Type 0) (k : ℕ) (bs : List Batch)
      → P dep
      → AllBatches P bs
      → AllBatches P (append_at k dep bs)
  unfolding append_at
  AllBatches-append_at P k [] p h = tt
  AllBatches-append_at P zero (b ∷ bs) p h = (All-append P b (dep ∷ []) h.0 (p, tt), h.1)
  AllBatches-append_at P (suc k) (b ∷ bs) p h = (h.0, AllBatches-append_at P k bs p h.1)

  AtLevels-append_at :
      (level : String → ℕ) (i k : ℕ) (bs : List Batch)
      → level dep.name ≡ i + k
      → AtLevels level i bs
      → AtLevels level i (append_at k dep bs)
  unfolding append_at
  AtLevels-append_at level i k [] e h = tt
  AtLevels-append_at level i zero (b ∷ bs) e h =
      (All-append (λ d. level d.name ≡ i) b (dep ∷ []) h.0 (omega arith, tt), h.1)
  AtLevels-append_at level i (suc k) (b ∷ bs) e h =
      (h.0, AtLevels-append_at level (suc i) k bs (omega arith) h.1)

module _ (level : String → ℕ) where
  pub group-perm :
      (bs : List Batch) (rest : List Dependency)
      → All (λ d. level d.name < length bs) rest
      → Perm (flatten (group level bs rest)) (flatten bs ++ rest)
  unfolding group
  group-perm bs [] h = rw append-nil (Perm.refl (flatten bs))
  group-perm bs (d ∷ rest) h =
      let bs' = append_at (level d.name) d bs in
      Perm.trans (group-perm bs' rest (rw length-append_at h.1)) (
        Perm.trans (Perm.append_right rest (append_at-perm d (level d.name) bs h.0))
          (Perm.symm (perm_middle (flatten bs) rest)))

  pub group-AllBatches :
      (P : Dependency → Type 0) (bs : List Batch) (rest : List Dependency)
      → All P rest
      → AllBatches P bs
      → AllBatches P (group level bs rest)
  unfolding group
  group-AllBatches P bs [] p h = h
  group-AllBatches P bs (d ∷ rest) p h =
      group-AllBatches P (append_at (level d.name) d bs) rest p.1
        (AllBatches-append_at d P (level d.name) bs p.0 h)

  pub group-AtLevels :
      (bs : List Batch) (rest : List Dependency)
      → AtLevels level 0 bs
      → AtLevels level 0 (group level bs rest)
  unfolding group
  group-AtLevels bs [] h = h
  group-AtLevels bs (d ∷ rest) h =
      group-AtLevels (append_at (level d.name) d bs) rest
        (AtLevels-append_at d level 0 (level d.name) bs (omega arith) h)

  pub AtLevels-empty : (i n : ℕ) → AtLevels level i (empty_batches n)
  unfolding empty_batches
  AtLevels-empty i zero = tt
  AtLevels-empty i (suc n) = (tt, AtLevels-empty (suc i) n)

  -- A name in the batches from position i on has at least level i.
  level-ge :
      (i : ℕ) (bs : List Batch) (r : String)
      → AtLevels level i bs
      → contains r (batch_names bs) ≡ true
      → i ≤ level r
  unfolding batch_names
  level-ge i [] r h m = cc
  level-ge i (b ∷ bs) r h m = elim (Bool-cases (contains r (names b))) [
    | inl here ↦ in_batch b h.0 here
    | inr later ↦
        let deeper =
          level-ge (suc i) bs r h.1
            (ground (arith, contains-append r (names b) (batch_names bs))) in
        omega arith
  ]
    where
      in_batch :
          (c : Batch) → All (λ d. level d.name ≡ i) c → contains r (names c) ≡ true → i ≤ level r
      in_batch [] k m' = cc
      in_batch (d ∷ c) k m' = elim (Bool-cases (d.name == r)) [
        | inl e ↦ omega (arith, k.0, ap level (==→≡ d.name r e))
        | inr e ↦ in_batch c k.1 (ground arith)
      ]

  abbrev pub Rises : List String → Dependency → Type 0
  Rises all d =
      (r : String)
      → contains r d.depends_on ≡ true
      → (level r < level d.name) × (contains r all ≡ true)

  batch_ready :
      (i : ℕ) (all seen : List String) (b : Batch) (bs : List Batch)
      → AtLevels level i (b ∷ bs)
      → ((r : String) → contains r all ≡ true → contains r (seen ++ batch_names (b ∷ bs)) ≡ true)
      → (c : Batch) → All (λ d. level d.name ≡ i) c
      → All (Rises all) c
      → All (λ d. Within d.depends_on seen) c
  batch_ready i all seen b bs h cover [] at_i k = tt
  batch_ready i all seen b bs h cover (d ∷ c) at_i k = (
    λ r m.
        let (lower, known) = k.0 r m in
        elim (Bool-cases (contains r (batch_names (b ∷ bs)))) [
          | inl later ↦ absurd (omega (arith, level-ge i (b ∷ bs) r h later, lower, at_i.0))
          | inr no_later ↦
              ground (arith, cover r known, contains-append r seen (batch_names (b ∷ bs)))
        ],
    batch_ready i all seen b bs h cover c at_i.1 k.1,
  )

  pub staged :
      (i : ℕ) (all seen : List String) (bs : List Batch)
      → AtLevels level i bs
      → AllBatches (Rises all) bs
      → ((r : String) → contains r all ≡ true → contains r (seen ++ batch_names bs) ≡ true)
      → IsStaged seen bs
  staged i all seen [] h k cover = tt
  staged i all seen (b ∷ bs) h k cover = (
    batch_ready i all seen b bs h cover b h.0 k.0,
    staged (suc i) all (seen ++ names b) bs h.1 k.1
        (unfold batch_names in λ r m. rw append_assoc (cover r m)),
  )
