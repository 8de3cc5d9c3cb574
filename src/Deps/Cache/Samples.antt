-- ===== src/Deps/Cache/Samples.antt =====
-- internal/deps/cache.go: a cluster whose ConfigMaps are a function of their names.
use vigie.Prelude.{
  String, ◌≡◌, refl, sym, ap, Bool, false, Bool-cases, inl, inr, ◌&&◌, &&-true, Option, none, some,
  ◌==◌, ==→≡, ==_self, if◌then◌else◌, arith,
}
use vigie.Prelude.Texts.{take}
use vigie.Dsl.Types.{Dependency}
use vigie.Deps.Dag.{zero_dependency}
use vigie.Deps.Cache.{
  InstallRecord, ConfigMap, Reply, got, refused, Found, found, missing, not_read, Created, created,
  already_exists, Deleted, deleted, already_gone, Store, Codec, ok, hash_dep, is_cached,
  store_record, delete_record, store_serialised, config_map_name,
}
use vigie.Deps.Cache.Recorded.{
  ReadsBack, Holds, IsConsistent, is_cached-store_record, is_cached-delete_record,
}

abbrev ConfigMaps : Type 0
ConfigMaps = String → Option ConfigMap

-- An object is found under the name that it is asked for.
abbrev found_at : (name : String) → Option ConfigMap → Found
found_at name none = missing
found_at name (some cm) = found (record cm { name = name })

abbrev store_at : ConfigMaps → (name : String) → Option ConfigMap → ConfigMaps
store_at s name cm = λ n. if name == n then cm else s n

abbrev create_at : ConfigMaps → ConfigMap → Option ConfigMap → ConfigMaps × Created
create_at s cm none = (store_at s cm.name (some cm), created)
create_at s cm (some old) = (s, already_exists)

abbrev delete_at : ConfigMaps → (name : String) → Option ConfigMap → ConfigMaps × Deleted
delete_at s name none = (s, already_gone)
delete_at s name (some old) = (store_at s name none, deleted)

abbrev config_maps : Store ConfigMaps
config_maps = record {
  create_namespace = λ s name. (s, already_exists);
  read = λ s again name. found_at name (s name);
  create = λ s cm. create_at s cm (s cm.name);
  update = λ s cm. (store_at s cm.name (some cm), none);
  delete = λ s name. delete_at s name (s name);
}

store_at-reads :
    (s : ConfigMaps) (name : String) (cm : Option ConfigMap) → store_at s name cm name ≡ cm
store_at-reads s name cm = rw (==_self name) refl

store_at-Holds :
    (s : ConfigMaps) (cm : ConfigMap)
    → Holds config_maps (store_at s cm.name (some cm)) cm.name cm.entries
store_at-Holds s cm = record {
  config_map = cm;
  reads = ap (found_at cm.name) (store_at-reads s cm.name (some cm));
  holds = refl;
}

abbrev name_in : (otherwise : String) → Found → String
name_in otherwise (found cm) = cm.name
name_in otherwise missing = otherwise
name_in otherwise (not_read text) = otherwise

found_at-name :
    (name : String) (o : Option ConfigMap) (cm : ConfigMap)
    → found_at name o ≡ found cm
    → cm.name ≡ name
found_at-name name none cm h = cc
found_at-name name (some old) cm h = sym (ap (name_in name) h)

create_at-Holds :
    (s : ConfigMaps) (cm : ConfigMap) (o : Option ConfigMap)
    → (create_at s cm o).1 ≡ created
    → Holds config_maps (create_at s cm o).0 cm.name cm.entries
create_at-Holds s cm none h = store_at-Holds s cm
create_at-Holds s cm (some old) h = cc

delete_at-missing :
    (s : ConfigMaps) (name : String) (o : Option ConfigMap)
    → s name ≡ o
    → found_at name ((delete_at s name o).0 name) ≡ missing
delete_at-missing s name none e = ap (found_at name) e
delete_at-missing s name (some old) e = ap (found_at name) (store_at-reads s name none)

config_maps-IsConsistent : IsConsistent config_maps
config_maps-IsConsistent = record {
  after_creation = λ s cm h. create_at-Holds s cm _ h;
  after_update = λ s cm h. store_at-Holds s cm;
  found_by_name = λ s again name cm h. found_at-name name _ cm h;
  after_deletion = λ s name h. delete_at-missing s name _ refl;
  not_deleted_gone = λ s name h. delete_at-missing s name _ refl;
}

-- The namespace stands for the whole input of the hash. Only records of one dep are serialised.
abbrev is_db : InstallRecord → Bool
is_db r = (r.name == "db") && (r.scope == "cluster")

abbrev db_record : (hash : String) → InstallRecord
db_record hash = record { name = "db"; hash = hash; scope = "cluster" }

abbrev codec : Codec
codec = record {
  marshal_input = λ i. got i.namespace;
  marshal_record = λ r. if is_db r then got r.hash else refused "not db";
  unmarshal_record = λ t. got (db_record t);
  sha256 = λ t. t;
}

abbrev text_of : Reply String → String
text_of (got t) = t
text_of (refused t) = t

record_path :
    (r : InstallRecord) (text : String)
    → r.name ≡ "db"
    → r.hash ≡ text
    → r.scope ≡ "cluster"
    → db_record text ≡ r
record_path r text n h sc = rw (sym n, sym h, sym sc) refl

codec-back :
    (r : InstallRecord) (text : String)
    → (if is_db r then got r.hash else refused "not db") ≡ got text
    → got (db_record text) ≡ got r
codec-back r text h = elim (Bool-cases (is_db r)) [
  | inl taken ↦
      let (n, sc) = &&-true (r.name == "db") (r.scope == "cluster") taken in
      let same : r.hash ≡ text = ap text_of (rw taken at h) in
      ap got (record_path r text (==→≡ r.name "db" n) same (==→≡ r.scope "cluster" sc))
  | inr other ↦ absurd (ground arith)
]

codec-ReadsBack : ReadsBack codec
codec-ReadsBack = record { back = codec-back }

abbrev db : (namespace : String) → Dependency
db namespace = record zero_dependency { name = "db"; namespace = namespace; scope = "cluster" }

abbrev nowhere : ConfigMaps
nowhere name = none

is_cached-store_record_example :
    is_cached codec config_maps (store_record codec config_maps nowhere (db "a")).0 (db "b")
    ≡ ok false
unfolding store_record hash_dep store_serialised
is_cached-store_record_example =
    is_cached-store_record codec config_maps config_maps-IsConsistent nowhere (db "a") (db "b") "a"
      "b" codec-ReadsBack refl refl refl refl

is_cached-delete_record_example :
    let stored = (store_record codec config_maps nowhere (db "a")).0 in
    is_cached codec config_maps (delete_record codec config_maps stored "db").0 (db "a") ≡ ok false
unfolding store_record hash_dep delete_record store_serialised config_map_name take
is_cached-delete_record_example =
    is_cached-delete_record codec config_maps config_maps-IsConsistent
      (store_record codec config_maps nowhere (db "a")).0 (db "a") "a" refl refl
