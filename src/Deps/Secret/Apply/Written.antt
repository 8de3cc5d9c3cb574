-- ===== src/Deps/Secret/Apply/Written.antt =====
-- internal/deps/source_secret.go: what a Secret dep leaves in the cluster.
use vigie.Prelude.{
  String, ◌≡◌, ◌≢◌, refl, ap, ◌∙◌, inl, inr, Bool-cases, Option, none, some, List, [], ◌∷◌, ◌==◌,
  All, arith, ==_false,
}
use vigie.Dsl.Types.{Dependency, SecretKeySpec}
use vigie.Deps.Secret.{Machine}
use vigie.Deps.Secret.Apply.{
  Secret, Cluster, Request, creates_namespace, creates, gets, updates, Created, created,
  already_exists, not_created, Fetch, fetched, not_fetched, Asked, Keys, resolved, stopped,
  resolve_keys, apply_secret, with_specs, with_keys, with_client, write_in_namespace,
  ensure_namespace, upsert_secret, after_create, update_fetched, update_error, updated, secret_of,
  specs_of,
}
use vigie.Deps.Secret.Apply.Entries.{value_at, last_value, HasValue, resolve_keys-resolved}

-- The last request of the list is the accepted write of this Secret: it is created under the name of the dep
-- in the namespace of the dep, or it was there, and the object that the cluster has under that name keeps its
-- own name, its namespace and all that the program does not set.
pub data Writes (c : Cluster) (d : Dependency) : Secret → List Request → Type 0 where
  by_create :
      (s : Secret)
      → c.create_secret s ≡ created
      → s.name ≡ d.name
      → s.namespace ≡ d.namespace
      → Writes c d s (creates_namespace d.namespace ∷ creates s ∷ [])
  by_update :
      (s wanted existing : Secret)
      → c.create_secret wanted ≡ already_exists
      → wanted.name ≡ d.name
      → wanted.namespace ≡ d.namespace
      → c.get_secret d.namespace d.name ≡ fetched existing
      → s.name ≡ existing.name
      → s.namespace ≡ existing.namespace
      → s.others ≡ existing.others
      → c.update_secret s ≡ none
      → Writes c d s (
          creates_namespace d.namespace ∷ creates wanted ∷ gets d.namespace d.name ∷ updates s ∷ [])

pub record Kept (d : Dependency) (s : Secret) : Type 0 where
  pub typed : s.type ≡ "Opaque"
  pub labelled : s.labels ≡ ("vigie.io/managed-by", "secrets") ∷ []
  pub annotated : s.annotations ≡ ("vigie.io/dep-name", d.name) ∷ []

module _ (c : Cluster) (d : Dependency) (held : List (String × String)) where
  abbrev Stored : Asked → Type 0
  Stored asked = (s : Secret) × Writes c d s asked.requests × Kept d s × (s.entries ≡ held)

  -- The requests of the write stand behind that for the namespace.
  abbrev behind_namespace : Asked → Asked
  behind_namespace asked = record {
    requests = creates_namespace d.namespace ∷ asked.requests;
    error = asked.error;
  }

  update_error-none : (o : Option String) → update_error o ≡ none → o ≡ none
  update_error-none none h = refl
  update_error-none (some text) h = cc

  update_fetched-Stored :
      (f : Fetch)
      → c.create_secret (secret_of d held) ≡ already_exists
      → c.get_secret d.namespace d.name ≡ f
      → (update_fetched c (secret_of d held) f).error ≡ none
      → Stored (behind_namespace (update_fetched c (secret_of d held) f))
  update_fetched-Stored (not_fetched text) taken found h = cc
  update_fetched-Stored (fetched existing) taken found h =
      let new = updated existing (secret_of d held) in
      (
        new,
        by_update new (secret_of d held) existing taken refl refl found refl refl refl
            (update_error-none (c.update_secret new) h),
        record { typed = refl; labelled = refl; annotated = refl },
        refl,
      )

  after_create-Stored :
      (a : Created)
      → c.create_secret (secret_of d held) ≡ a
      → (after_create c (secret_of d held) a).error ≡ none
      → Stored (behind_namespace (after_create c (secret_of d held) a))
  after_create-Stored created e h = (
    secret_of d held,
    by_create (secret_of d held) e refl refl,
    record { typed = refl; labelled = refl; annotated = refl },
    refl,
  )
  after_create-Stored already_exists e h = update_fetched-Stored _ e refl h
  after_create-Stored (not_created text) e h = cc

  write_in_namespace-Stored :
      (ns : Option String)
      → (write_in_namespace c d held ns).error ≡ none
      → Stored (write_in_namespace c d held ns)
  unfolding write_in_namespace upsert_secret
  write_in_namespace-Stored (some text) h = cc
  write_in_namespace-Stored none h = after_create-Stored (c.create_secret (secret_of d held)) refl h

  with_client-Stored :
      (client : Option String)
      → (with_client c d held client).error ≡ none
      → Stored (with_client c d held client)
  with_client-Stored (some text) h = cc
  with_client-Stored none h = write_in_namespace-Stored (ensure_namespace c d.namespace) h

module _ (m : Machine) (c : Cluster) (d : Dependency) (base : String) where
  -- Where the dep asks anything of the cluster, its keys are all there.
  abbrev pub Ready : List SecretKeySpec → Type 0
  Ready specs = (specs ≢ []) × (d.namespace ≢ "") × All (HasValue m base) specs

  Ready-with_keys :
      (specs : List SecretKeySpec) (ks : Keys)
      → resolve_keys m base d.name specs [] ≡ ks
      → (with_keys c d ks).requests ≢ []
      → All (HasValue m base) specs
  Ready-with_keys specs (stopped x) e asked = absurd (asked refl)
  Ready-with_keys specs (resolved held) e asked =
      (resolve_keys-resolved m base d.name specs [] held e).0

  Stores-with_keys :
      (specs : List SecretKeySpec) (ks : Keys)
      → resolve_keys m base d.name specs [] ≡ ks
      → (with_keys c d ks).error ≡ none
      → (s : Secret) × Writes c d s (with_keys c d ks).requests
        × Kept d s
        × ((k : String) → value_at k s.entries ≡ last_value m base k specs none)
  Stores-with_keys specs (stopped x) e h = cc
  Stores-with_keys specs (resolved held) e h =
      let (s, writes, kept_parts, same) = with_client-Stored c d held c.new_client h in
      let values = (resolve_keys-resolved m base d.name specs [] held e).1 in
      (s, writes, kept_parts, λ k. ap (value_at k) same ∙ values k)

  with_specs-Writes :
      (specs : List SecretKeySpec)
      → (with_specs m c base d specs).error ≡ none
      → (s : Secret) × Writes c d s (with_specs m c base d specs).requests
        × Kept d s
        × ((k : String) → value_at k s.entries ≡ last_value m base k specs none)
  with_specs-Writes [] h = cc
  with_specs-Writes (key ∷ keys) h = elim (Bool-cases (d.namespace == "")) [
    | inl blank ↦ absurd (ground arith)
    | inr named ↦ rw named (Stores-with_keys (key ∷ keys) _ refl (rw named at h))
  ]

  with_specs-Ready :
      (specs : List SecretKeySpec) → (with_specs m c base d specs).requests ≢ [] → Ready specs
  with_specs-Ready [] asked = absurd (asked refl)
  with_specs-Ready (key ∷ keys) asked = elim (Bool-cases (d.namespace == "")) [
    | inl blank ↦ absurd (asked (rw blank refl))
    | inr named ↦ (
      λ e. cc,
      ==_false d.namespace "" named,
      Ready-with_keys (key ∷ keys) _ refl (λ e. asked (rw named e)),
    )
  ]

  -- A Secret dep that is applied without an error has written a Secret. It has the name and the namespace of
  -- the dep where it is created. Where there is one under that name and namespace, the object that the cluster
  -- gives for them is updated: its name, its namespace and what the program does not set are left. It is of type Opaque with the labels and annotations of the program, and a key has in
  -- it the value of the last spec for that key, and no value where there is no spec for it.
  pub apply_secret-Writes :
      (apply_secret m c d base).error ≡ none
      → (s : Secret) × Writes c d s (apply_secret m c d base).requests
        × Kept d s
        × ((k : String)
            → value_at k s.entries ≡ last_value m base k (specs_of d.source.secret) none)
  unfolding apply_secret
  apply_secret-Writes h = with_specs-Writes (specs_of d.source.secret) h

  -- Nothing is asked of the cluster for a Secret dep unless it has a namespace and keys, and each key has a
  -- name and a value.
  pub apply_secret-Ready :
      (apply_secret m c d base).requests ≢ [] → Ready (specs_of d.source.secret)
  unfolding apply_secret
  apply_secret-Ready = with_specs-Ready (specs_of d.source.secret)
