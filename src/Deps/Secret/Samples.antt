-- ===== src/Deps/Secret/Samples.antt =====
-- internal/deps/source_secret.go: a Secret of two keys, whose password stands in a file that is not there
-- and falls back to a command.
use vigie.Prelude.{String, ◌≡◌, refl, ◌==◌, if◌then◌else◌, none, some, [], ◌∷◌}
use vigie.Prelude.Texts.{append, has_prefix}
use vigie.Dsl.Types.{Dependency, SecretKeySpec, ShellCommand, spec, spec_with_fallback}
use vigie.Deps.Dag.{zero_dependency}
use vigie.Deps.Secret.{
  Machine, absent, contents, finished, produced, resolve_secret_value, resolve_one_source,
  resolve_dep_path, run_generate, answer_of,
}
use vigie.Deps.Secret.Chain.{Settled, resolve_secret_value-Settled}
use vigie.Deps.Secret.Apply.{
  Secret, Cluster, already_exists, deleted, fetched, apply_secret, set_key, resolve_keys,
  ensure_namespace, upsert_secret,
}
use vigie.Deps.Secret.Apply.Entries.{value_at, last_value}
use vigie.Deps.Secret.Apply.Written.{Writes, Kept, apply_secret-Writes}

abbrev machine : Machine
machine = record {
  get_env = λ name. if name == "DB_USER" then "admin" else "";
  join = λ base path. append base (append "/" path);
  read_file = λ path. if path == "suite/empty.txt" then contents (some "") else absent;
  parse_duration = λ t. ("", none);
  run = λ command. finished (some command.script);
}

abbrev cluster : Cluster
cluster = record {
  new_client = none;
  create_namespace = λ name. already_exists;
  create_secret = λ s. already_exists;
  get_secret = λ namespace name. fetched (record {
    name = name;
    namespace = namespace;
    labels = [];
    annotations = [];
    type = "";
    entries = [];
    others = "7";
  });
  update_secret = λ s. none;
  delete_secret = λ namespace name. deleted;
}

abbrev echo : ShellCommand
echo = record { run = "s3cret"; shell = ""; dir = ""; env = []; timeout = "" }

abbrev password : SecretKeySpec
password =
    spec_with_fallback "password" "" "password.txt" none
      (spec_with_fallback "" "DB_PASSWORD" "" none (spec "" "" "" (some echo)))

abbrev credentials : Dependency
credentials = record zero_dependency {
  name = "credentials";
  namespace = "db";
  source = record {
    helm = none;
    manifest = "";
    kustomize = "";
    secret = some (record { keys = spec "user" "DB_USER" "" none ∷ password ∷ [] });
    ref = "";
  };
}

-- The command behind two fallbacks answers.
password-answer :
    (resolve_secret_value machine "suite" password).answer
    ≡ produced "s3cret" "fallback:fallback:generate"
unfolding resolve_secret_value resolve_one_source resolve_dep_path run_generate answer_of has_prefix
password-answer = refl

-- An empty variable gives no value and an empty file gives an empty one.
empty_file-answer :
    (resolve_secret_value machine "suite"
      (spec_with_fallback "k" "" "empty.txt" none password)).answer
    ≡ produced "" "file:suite/empty.txt"
unfolding resolve_secret_value resolve_one_source resolve_dep_path run_generate answer_of has_prefix
empty_file-answer = refl

resolve_secret_value-Settled_example :
    Settled machine "suite" password (resolve_secret_value machine "suite" password)
resolve_secret_value-Settled_example = resolve_secret_value-Settled machine "suite" password

apply_secret-Writes_example :
    (s : Secret) × Writes cluster credentials s
      (apply_secret machine cluster credentials "suite").requests
    × Kept credentials s
    × ((k : String)
        → value_at k s.entries
          ≡ last_value machine "suite" k (spec "user" "DB_USER" "" none ∷ password ∷ []) none)
unfolding apply_secret resolve_keys set_key ensure_namespace upsert_secret resolve_secret_value
    resolve_one_source resolve_dep_path run_generate answer_of has_prefix
apply_secret-Writes_example = apply_secret-Writes machine cluster credentials "suite" refl
