-- ===== src/Deps/Cache/Recorded.antt =====
-- internal/deps/cache.go: what the cache answers after a record is stored, and after one is deleted.
use vigie.Prelude.{
  String, ◌≡◌, refl, sym, subst, Bool, true, false, Option, none, some, List, [], ◌∷◌, ◌==◌,
}
use vigie.Dsl.Types.{Dependency}
use vigie.Deps.Cache.{
  InstallRecord, ConfigMap, Reply, got, refused, Found, found, missing, not_read, Created, created,
  already_exists, not_created, Deleted, deleted, already_gone, not_deleted, Store, Codec,
  CacheError, ok, hash_dep, config_map_name, config_map_of, overwritten, is_cached, written,
  update_found, after_race, after_create, after_read, upsert_config_map, store_serialised, store_in,
  store_record, delete_error, delete_record, load_record, cached_at,
}

-- A record is read back as it was written.
pub record ReadsBack (codec : Codec) : Type 0 where
  pub back :
      (r : InstallRecord) (text : String)
      → codec.marshal_record r ≡ got text
      → codec.unmarshal_record text ≡ got r

module _ {S : Type 0} (store : Store S) where
  -- The ConfigMap of this name is there, with these entries.
  pub record Holds (s : S) (name : String) (entries : List (String × String)) : Type 0 where
    pub config_map : ConfigMap
    pub reads : store.read s false name ≡ found config_map
    pub holds : config_map.entries ≡ entries

  -- An accepted write is what the next read finds, a ConfigMap is found under its name, and what is
  -- deleted is not found.
  pub record IsConsistent : Type 0 where
    pub after_creation :
        (s : S) (cm : ConfigMap)
        → (store.create s cm).1 ≡ created
        → Holds (store.create s cm).0 cm.name cm.entries
    pub after_update :
        (s : S) (cm : ConfigMap)
        → (store.update s cm).1 ≡ none
        → Holds (store.update s cm).0 cm.name cm.entries
    pub found_by_name :
        (s : S) (again : Bool) (name : String) (cm : ConfigMap)
        → store.read s again name ≡ found cm
        → cm.name ≡ name
    pub after_deletion :
        (s : S) (name : String)
        → (store.delete s name).1 ≡ deleted
        → store.read (store.delete s name).0 false name ≡ missing
    pub not_deleted_gone :
        (s : S) (name : String)
        → (store.delete s name).1 ≡ already_gone
        → store.read (store.delete s name).0 false name ≡ missing

module _ (codec : Codec) {S : Type 0} (store : Store S) (law : IsConsistent store) where
  written-ok :
      (r : S × Option String)
      → (written codec store r).1 ≡ none
      → (r.1 ≡ none) × ((written codec store r).0 ≡ r.0)
  written-ok (s, none) h = (refl, refl)
  written-ok (s, some text) h = cc

  -- The ConfigMap of a dep holds this record.
  abbrev HasRecord : S → (dep text : String) → Type 0
  HasRecord s dep text = Holds store s (config_map_name codec dep) (("record", text) ∷ [])

  update_found-HasRecord :
      (s : S) (dep text : String) (again : Bool) (existing : ConfigMap)
      → store.read s again (config_map_name codec dep) ≡ found existing
      → (update_found codec store s (config_map_of codec dep text) existing).1 ≡ none
      → HasRecord (update_found codec store s (config_map_of codec dep text) existing).0 dep text
  update_found-HasRecord s dep text again existing e h =
      let new = overwritten codec existing (config_map_of codec dep text) in
      let (accepted, same) = written-ok (store.update s new) h in
      let name = law.found_by_name s again _ existing e in
      subst (λ t. HasRecord t dep text) (sym same)
        (subst (λ n. Holds store (store.update s new).0 n new.entries) name
          (law.after_update s new accepted))

  after_race-HasRecord :
      (s : S) (dep text : String) (f : Found)
      → store.read s true (config_map_name codec dep) ≡ f
      → (after_race codec store s (config_map_of codec dep text) f).1 ≡ none
      → HasRecord (after_race codec store s (config_map_of codec dep text) f).0 dep text
  after_race-HasRecord s dep text (found existing) e h =
      update_found-HasRecord s dep text true existing e h
  after_race-HasRecord s dep text missing e h = cc
  after_race-HasRecord s dep text (not_read t) e h = cc

  after_create-HasRecord :
      (dep text : String) (r : S × Created)
      → (r.1 ≡ created → HasRecord r.0 dep text)
      → (after_create codec store (config_map_of codec dep text) r).1 ≡ none
      → HasRecord (after_create codec store (config_map_of codec dep text) r).0 dep text
  after_create-HasRecord dep text (s, created) made h = made refl
  after_create-HasRecord dep text (s, already_exists) made h =
      after_race-HasRecord s dep text _ refl h
  after_create-HasRecord dep text (s, not_created t) made h = cc

  after_read-HasRecord :
      (s : S) (dep text : String) (f : Found)
      → store.read s false (config_map_name codec dep) ≡ f
      → (after_read codec store s (config_map_of codec dep text) f).1 ≡ none
      → HasRecord (after_read codec store s (config_map_of codec dep text) f).0 dep text
  after_read-HasRecord s dep text (found existing) e h =
      update_found-HasRecord s dep text false existing e h
  after_read-HasRecord s dep text missing e h =
      let cm = config_map_of codec dep text in
      after_create-HasRecord dep text (store.create s cm) (law.after_creation s cm) h
  after_read-HasRecord s dep text (not_read t) e h = cc

  -- What the dep's record is serialised to.
  abbrev serialised : Dependency → (hash : String) → Reply String
  serialised d hash = codec.marshal_record (record { name = d.name; hash = hash; scope = d.scope })

  abbrev IsStored : S → Dependency → (hash : String) → Type 0
  IsStored s d hash = (text : String) × (serialised d hash ≡ got text) × HasRecord s d.name text

  store_serialised-IsStored :
      (s : S) (d : Dependency) (hash : String) (r : Reply String)
      → serialised d hash ≡ r
      → (store_serialised codec store s d.name r).1 ≡ none
      → IsStored (store_serialised codec store s d.name r).0 d hash
  unfolding store_serialised upsert_config_map
  store_serialised-IsStored s d hash (refused t) e h = cc
  store_serialised-IsStored s d hash (got text) e h =
      (text, e, after_read-HasRecord s d.name text _ refl h)

  store_in-IsStored :
      (d : Dependency) (hash : String) (r : S × Option CacheError)
      → (store_in codec store d hash r).1 ≡ none
      → IsStored (store_in codec store d hash r).0 d hash
  store_in-IsStored d hash (s, some x) h = cc
  store_in-IsStored d hash (s, none) h = store_serialised-IsStored s d hash _ refl h

  store_record-IsStored :
      (s : S) (d : Dependency) (hash : String)
      → hash_dep codec d ≡ ok hash
      → (store_record codec store s d).1 ≡ none
      → IsStored (store_record codec store s d).0 d hash
  unfolding store_record
  store_record-IsStored s d hash e h = rw e (store_in-IsStored d hash _ (rw e at h))

  is_cached-IsStored :
      (s : S) (d later : Dependency) (hash asked : String)
      → ReadsBack codec
      → IsStored s d hash
      → later.name ≡ d.name
      → hash_dep codec later ≡ ok asked
      → is_cached codec store s later ≡ ok (hash == asked)
  unfolding is_cached cached_at load_record
  is_cached-IsStored s d later hash asked codec_law (text, e, held) same_name later_hash =
      rw (later_hash, same_name, held.reads, held.holds, codec_law.back _ text e) refl

  -- A dep whose record was stored without an error is answered to be cached exactly as long as its hash
  -- is the same: a later dep of that name is cached if its source, values and namespace have the hash
  -- of those that were stored, and not cached if theirs is another.
  pub is_cached-store_record :
      (s : S) (d later : Dependency) (hash asked : String)
      → ReadsBack codec
      → later.name ≡ d.name
      → hash_dep codec d ≡ ok hash
      → hash_dep codec later ≡ ok asked
      → (store_record codec store s d).1 ≡ none
      → is_cached codec store (store_record codec store s d).0 later ≡ ok (hash == asked)
  is_cached-store_record s d later hash asked codec_law same_name e later_hash h =
      is_cached-IsStored _ d later hash asked codec_law (store_record-IsStored s d hash e h)
        same_name later_hash

  delete_error-missing :
      (name dep : String) (r : S × Deleted)
      → (r.1 ≡ deleted → store.read r.0 false name ≡ missing)
      → (r.1 ≡ already_gone → store.read r.0 false name ≡ missing)
      → (delete_error codec store dep r).1 ≡ none
      → store.read (delete_error codec store dep r).0 false name ≡ missing
  delete_error-missing name dep (s, deleted) gone absent h = gone refl
  delete_error-missing name dep (s, already_gone) gone absent h = absent refl
  delete_error-missing name dep (s, not_deleted text) gone absent h = cc

  -- A dep whose record was deleted without an error, or was not there, is not cached.
  pub is_cached-delete_record :
      (s : S) (d : Dependency) (asked : String)
      → hash_dep codec d ≡ ok asked
      → (delete_record codec store s d.name).1 ≡ none
      → is_cached codec store (delete_record codec store s d.name).0 d ≡ ok false
  unfolding is_cached cached_at load_record delete_record
  is_cached-delete_record s d asked e h =
      let name = config_map_name codec d.name in
      let gone =
        delete_error-missing name d.name (store.delete s name) (law.after_deletion s name)
          (law.not_deleted_gone s name) h in
      rw (e, gone) refl
