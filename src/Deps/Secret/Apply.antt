-- ===== src/Deps/Secret/Apply.antt =====
-- internal/deps/source_secret.go: a Secret dep, from its keys to the object in the cluster, and its removal.
-- What the cluster answers is the parameter Cluster; what it is asked is a list of requests.
pub mod Entries
pub mod Written
use vigie.Prelude.{String, Option, none, some, List, [], ◌∷◌, ◌++◌, ◌==◌, if◌then◌else◌}
use vigie.Dsl.Types.{Dependency, SecretKeySpec, spec, spec_with_fallback, SecretSource}
use vigie.Deps.Secret.{
  Machine, Answer, produced, nothing, failed, ValueError, Probed, resolve_secret_value,
}

-- A Secret. `others` stands for what the program does not set.
pub record Secret : Type 0 where
  pub name : String
  pub namespace : String
  pub labels : List (String × String)
  pub annotations : List (String × String)
  pub type : String
  pub entries : List (String × String)
  pub others : String

pub data Created : Type 0 where
  created : Created
  already_exists : Created
  not_created : (text : String) → Created

pub data Deleted : Type 0 where
  deleted : Deleted
  not_found : Deleted
  not_deleted : (text : String) → Deleted

pub data Fetch : Type 0 where
  fetched : Secret → Fetch
  not_fetched : (text : String) → Fetch

-- An Option is an error's text.
pub record Cluster : Type 0 where
  pub new_client : Option String
  pub create_namespace : (name : String) → Created
  pub create_secret : Secret → Created
  pub get_secret : (namespace name : String) → Fetch
  pub update_secret : Secret → Option String
  pub delete_secret : (namespace name : String) → Deleted

pub data Request : Type 0 where
  creates_namespace : (name : String) → Request
  creates : Secret → Request
  gets : (namespace name : String) → Request
  updates : Secret → Request
  deletes : (namespace name : String) → Request

pub data SecretError : Type 0 where
  no_keys : (dep : String) → SecretError
  namespace_required : (dep : String) → SecretError
  empty_key : (dep : String) → SecretError
  key_failed : (dep key : String) → ValueError → SecretError
  no_client : (dep text : String) → SecretError
  namespace_failed : (dep namespace text : String) → SecretError
  existing_failed : (text : String) → SecretError
  secret_failed : (text : String) → SecretError
  teardown_failed : (dep text : String) → SecretError

-- What was asked of the cluster, and the error that is returned.
pub record Asked : Type 0 where
  pub requests : List Request
  pub error : Option SecretError

abbrev pub key_of : SecretKeySpec → String
key_of (spec key env file generate) = key
key_of (spec_with_fallback key env file generate fallback) = key

-- data[key] = value
unfoldable pub set_key : (key value : String) → List (String × String) → List (String × String)
set_key key value [] = (key, value) ∷ []
set_key key value ((k, v) ∷ rest) =
    let changed = set_key key value rest in
    if k == key then (key, value) ∷ rest else (k, v) ∷ changed

pub data Keys : Type 0 where
  resolved : List (String × String) → Keys
  stopped : SecretError → Keys

-- One round of the loop over the keys; `nothing` is a nil slice, which the loop stores as no bytes.
abbrev pub store_answer : (dep key : String) → Answer → List (String × String) → Keys
unfolding set_key
store_answer dep key (produced value source) held = resolved (set_key key value held)
store_answer dep key nothing held = resolved (set_key key "" held)
store_answer dep key (failed e) held = stopped (key_failed dep key e)

abbrev pub resolve_key :
    Machine → (base dep : String) → SecretKeySpec → List (String × String) → Keys
resolve_key m base dep key held =
    if key_of key == ""
    then stopped (empty_key dep)
    else store_answer dep (key_of key) (resolve_secret_value m base key).answer held

abbrev pub then_resolve : (rest : List (String × String) → Keys) → Keys → Keys
then_resolve rest (resolved held) = rest held
then_resolve rest (stopped e) = stopped e

unfoldable pub resolve_keys :
    Machine → (base dep : String) → List SecretKeySpec → List (String × String) → Keys
resolve_keys m base dep [] held = resolved held
resolve_keys m base dep (key ∷ keys) held =
    then_resolve (resolve_keys m base dep keys) (resolve_key m base dep key held)

abbrev pub update_error : Option String → Option SecretError
update_error none = none
update_error (some text) = some (secret_failed text)

-- The existing object with the data, type, labels and annotations of the new one.
abbrev pub updated : (existing secret : Secret) → Secret
updated existing secret = record {
  name = existing.name;
  namespace = existing.namespace;
  labels = secret.labels;
  annotations = secret.annotations;
  type = secret.type;
  entries = secret.entries;
  others = existing.others;
}

abbrev pub update_fetched : Cluster → Secret → Fetch → Asked
update_fetched c secret (not_fetched text) = record {
  requests = creates secret ∷ gets secret.namespace secret.name ∷ [];
  error = some (existing_failed text);
}
update_fetched c secret (fetched existing) = record {
  requests =
      creates secret ∷ gets secret.namespace secret.name ∷ updates (updated existing secret) ∷ [];
  error = update_error (c.update_secret (updated existing secret));
}

abbrev pub after_create : Cluster → Secret → Created → Asked
after_create c secret created = record { requests = creates secret ∷ []; error = none }
after_create c secret (not_created text) = record {
  requests = creates secret ∷ [];
  error = some (secret_failed text);
}
after_create c secret already_exists =
    update_fetched c secret (c.get_secret secret.namespace secret.name)

unfoldable pub upsert_secret : Cluster → Secret → Asked
upsert_secret c secret = after_create c secret (c.create_secret secret)

-- ensureNamespace: the text of its error.
unfoldable pub ensure_namespace : Cluster → (namespace : String) → Option String
ensure_namespace c namespace = elim (c.create_namespace namespace) [
  | created ↦ none
  | already_exists ↦ none
  | not_created text ↦ some text
]

abbrev pub secret_of : Dependency → List (String × String) → Secret
secret_of dep held = record {
  name = dep.name;
  namespace = dep.namespace;
  labels = ("vigie.io/managed-by", "secrets") ∷ [];
  annotations = ("vigie.io/dep-name", dep.name) ∷ [];
  type = "Opaque";
  entries = held;
  others = "";
}

abbrev pub refused : SecretError → Asked
refused e = record { requests = []; error = some e }

abbrev pub write_in_namespace :
    Cluster → Dependency → List (String × String) → Option String → Asked
unfolding upsert_secret
write_in_namespace c dep held (some text) = record {
  requests = creates_namespace dep.namespace ∷ [];
  error = some (namespace_failed dep.name dep.namespace text);
}
write_in_namespace c dep held none =
    let asked = upsert_secret c (secret_of dep held) in
    record { requests = creates_namespace dep.namespace ∷ asked.requests; error = asked.error }

abbrev pub with_client : Cluster → Dependency → List (String × String) → Option String → Asked
with_client c dep held (some text) = refused (no_client dep.name text)
with_client c dep held none = write_in_namespace c dep held (ensure_namespace c dep.namespace)

abbrev pub with_keys : Cluster → Dependency → Keys → Asked
with_keys c dep (stopped e) = refused e
with_keys c dep (resolved held) = with_client c dep held c.new_client

abbrev pub with_specs :
    Machine → Cluster → (base : String) → Dependency → List SecretKeySpec → Asked
with_specs m c base dep [] = refused (no_keys dep.name)
with_specs m c base dep (key ∷ keys) =
    if dep.namespace == ""
    then refused (namespace_required dep.name)
    else with_keys c dep (resolve_keys m base dep.name (key ∷ keys) [])

abbrev pub specs_of : Option SecretSource → List SecretKeySpec
specs_of none = []
specs_of (some src) = src.keys

unfoldable pub apply_secret : Machine → Cluster → Dependency → (base : String) → Asked
apply_secret m c dep base = with_specs m c base dep (specs_of dep.source.secret)

abbrev pub teardown_error : (dep : String) → Deleted → Option SecretError
teardown_error dep deleted = none
teardown_error dep not_found = none
teardown_error dep (not_deleted text) = some (teardown_failed dep text)

abbrev pub delete_with : Cluster → Dependency → Option String → Asked
delete_with c dep (some text) = refused (teardown_failed dep.name text)
delete_with c dep none = record {
  requests = deletes dep.namespace dep.name ∷ [];
  error = teardown_error dep.name (c.delete_secret dep.namespace dep.name);
}

unfoldable pub teardown_secret : Cluster → Dependency → Asked
teardown_secret c dep =
    if dep.namespace == ""
    then record { requests = []; error = none }
    else delete_with c dep c.new_client
