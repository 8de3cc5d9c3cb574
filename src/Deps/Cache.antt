-- ===== src/Deps/Cache.antt =====
-- internal/deps/cache.go: the records of what is installed in a cluster, one ConfigMap for each dep.
-- The ConfigMaps are a state `S`, with what the cluster answers in the parameter Store.
pub mod Recorded
pub mod Samples
use vigie.Prelude.{
  String, Bool, true, false, Option, none, some, List, [], ◌∷◌, ◌==◌, if◌then◌else◌,
}
use vigie.Prelude.Texts.{append, take}
use vigie.Value.{Fields}
use vigie.Dsl.Types.{Dependency, DependencySource}

pub record InstallRecord : Type 0 where
  pub name : String
  pub hash : String
  pub scope : String

-- A ConfigMap of the namespace vigie-system. `others` stands for what the program does not set.
pub record ConfigMap : Type 0 where
  pub name : String
  pub labels : List (String × String)
  pub annotations : List (String × String)
  pub entries : List (String × String)
  pub others : String

-- A value, or an error's text.
pub data Reply {ℓ} (A : Type ℓ) : Type ℓ where
  got : A → Reply A
  refused : (text : String) → Reply A

pub data Found : Type 0 where
  found : ConfigMap → Found
  missing : Found
  not_read : (text : String) → Found

pub data Created : Type 0 where
  created : Created
  already_exists : Created
  not_created : (text : String) → Created

pub data Deleted : Type 0 where
  deleted : Deleted
  already_gone : Deleted
  not_deleted : (text : String) → Deleted

-- The API of the cluster. `again` tells the second read of an upsert from the first: another program may
-- write between them. An Option is an error's text.
pub record Store (S : Type 0) : Type 0 where
  pub create_namespace : S → (name : String) → S × Created
  pub read : S → (again : Bool) → (name : String) → Found
  pub create : S → ConfigMap → S × Created
  pub update : S → ConfigMap → S × Option String
  pub delete : S → (name : String) → S × Deleted

-- What hashInput holds.
pub record HashInput : Type 0 where
  pub source : DependencySource
  pub values : Fields
  pub namespace : String

-- encoding/json, and the sum of crypto/sha256 in hexadecimal digits.
pub record Codec : Type 0 where
  pub marshal_input : HashInput → Reply String
  pub marshal_record : InstallRecord → Reply String
  pub unmarshal_record : String → Reply InstallRecord
  pub sha256 : String → String

pub data CacheError : Type 0 where
  marshalling_input : (text : String) → CacheError
  serialising : (text : String) → CacheError
  ensuring_namespace : (text : String) → CacheError
  loading : (dep text : String) → CacheError
  parsing : (dep text : String) → CacheError
  deleting : (dep text : String) → CacheError
  refetching : (name text : String) → CacheError
  checking : (name text : String) → CacheError
  writing : (text : String) → CacheError

pub data Result {ℓ} (A : Type ℓ) : Type ℓ where
  ok : A → Result A
  err : CacheError → Result A

abbrev pub entry : String → List (String × String) → Option String
entry key [] = none
entry key ((k, v) ∷ rest) = if k == key then some v else entry key rest

module _ (codec : Codec) where
  abbrev pub hash_of : Reply String → Result String
  hash_of (got raw) = ok (codec.sha256 raw)
  hash_of (refused text) = err (marshalling_input text)

  unfoldable pub hash_dep : Dependency → Result String
  hash_dep dep = hash_of (
      codec.marshal_input
        (record { source = dep.source; values = dep.values; namespace = dep.namespace }))

  -- The first eight bytes of the sum are sixteen digits.
  unfoldable pub config_map_name : (dep : String) → String
  config_map_name dep = append "vigie-dep-" (take 16 (codec.sha256 dep))

  abbrev pub parsed : (dep : String) → Reply InstallRecord → Result (Option InstallRecord)
  parsed dep (got r) = ok (some r)
  parsed dep (refused text) = err (parsing dep text)

  abbrev pub record_in : (dep : String) → Option String → Result (Option InstallRecord)
  record_in dep none = ok none
  record_in dep (some raw) = parsed dep (codec.unmarshal_record raw)

  abbrev pub loaded : (dep : String) → Found → Result (Option InstallRecord)
  loaded dep missing = ok none
  loaded dep (not_read text) = err (loading dep text)
  loaded dep (found cm) = record_in dep (entry "record" cm.entries)

  abbrev pub hit : (hash : String) → Result (Option InstallRecord) → Result Bool
  hit hash (err e) = err e
  hit hash (ok none) = ok false
  hit hash (ok (some r)) = ok (r.hash == hash)

  abbrev pub config_map_of : (dep serialised : String) → ConfigMap
  config_map_of dep serialised = record {
    name = config_map_name dep;
    labels = ("vigie.io/managed-by", "deps") ∷ ("dep-name", dep) ∷ [];
    annotations = ("vigie.io/dep-cache", "true") ∷ [];
    entries = ("record", serialised) ∷ [];
    others = "";
  }

  abbrev pub overwritten : (existing cm : ConfigMap) → ConfigMap
  overwritten existing cm = record {
    name = existing.name;
    labels = cm.labels;
    annotations = cm.annotations;
    entries = cm.entries;
    others = existing.others;
  }

  module _ {S : Type 0} (store : Store S) where
    unfoldable pub load_record : S → (dep : String) → Result (Option InstallRecord)
    load_record s dep = loaded dep (store.read s false (config_map_name dep))

    abbrev pub cached_at : S → (dep : String) → Result String → Result Bool
    unfolding load_record
    cached_at s dep (err e) = err e
    cached_at s dep (ok hash) = hit hash (load_record s dep)

    unfoldable pub is_cached : S → Dependency → Result Bool
    is_cached s dep = cached_at s dep.name (hash_dep dep)

    abbrev pub written : S × Option String → S × Option CacheError
    written (s, none) = (s, none)
    written (s, some text) = (s, some (writing text))

    abbrev pub update_found : S → (cm existing : ConfigMap) → S × Option CacheError
    update_found s cm existing = written (store.update s (overwritten existing cm))

    -- The second read, after a create that lost the race.
    abbrev pub after_race : S → ConfigMap → Found → S × Option CacheError
    after_race s cm (found existing) = update_found s cm existing
    after_race s cm missing = (s, some (refetching cm.name "not found"))
    after_race s cm (not_read text) = (s, some (refetching cm.name text))

    abbrev pub after_create : ConfigMap → S × Created → S × Option CacheError
    after_create cm (s, created) = (s, none)
    after_create cm (s, already_exists) = after_race s cm (store.read s true cm.name)
    after_create cm (s, not_created text) = (s, some (writing text))

    abbrev pub after_read : S → ConfigMap → Found → S × Option CacheError
    after_read s cm (found existing) = update_found s cm existing
    after_read s cm missing = after_create cm (store.create s cm)
    after_read s cm (not_read text) = (s, some (checking cm.name text))

    unfoldable pub upsert_config_map : S → (dep serialised : String) → S × Option CacheError
    upsert_config_map s dep serialised =
        let cm = config_map_of dep serialised in after_read s cm (store.read s false cm.name)

    -- ensureNamespace
    abbrev pub ensured : S × Created → S × Option CacheError
    ensured (s, created) = (s, none)
    ensured (s, already_exists) = (s, none)
    ensured (s, not_created text) = (s, some (ensuring_namespace text))

    abbrev pub store_serialised : S → (dep : String) → Reply String → S × Option CacheError
    unfolding upsert_config_map
    store_serialised s dep (refused text) = (s, some (serialising text))
    store_serialised s dep (got serialised) = upsert_config_map s dep serialised

    abbrev pub store_in :
        Dependency → (hash : String) → S × Option CacheError → S × Option CacheError
    store_in dep hash (s, some e) = (s, some e)
    store_in dep hash (s, none) =
        store_serialised s dep.name
          (codec.marshal_record (record { name = dep.name; hash = hash; scope = dep.scope }))

    abbrev pub store_hashed : S → Dependency → Result String → S × Option CacheError
    store_hashed s dep (err e) = (s, some e)
    store_hashed s dep (ok hash) =
        store_in dep hash (ensured (store.create_namespace s "vigie-system"))

    unfoldable pub store_record : S → Dependency → S × Option CacheError
    store_record s dep = store_hashed s dep (hash_dep dep)

    abbrev pub delete_error : (dep : String) → S × Deleted → S × Option CacheError
    delete_error dep (s, deleted) = (s, none)
    delete_error dep (s, already_gone) = (s, none)
    delete_error dep (s, not_deleted text) = (s, some (deleting dep text))

    unfoldable pub delete_record : S → (dep : String) → S × Option CacheError
    delete_record s dep = delete_error dep (store.delete s (config_map_name dep))
