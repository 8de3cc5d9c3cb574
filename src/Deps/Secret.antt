-- ===== src/Deps/Secret.antt =====
-- internal/deps/source_secret.go and paths.go: where the value of a key of a Secret comes from. The
-- machine that the program runs on is the parameter Machine. What is read on the way is a list of
-- probes.
pub mod Chain
pub mod Apply
pub mod Samples
use vigie.Prelude.{
  String, Bool, true, false, ◌||◌, not, Option, none, some, List, [], ◌∷◌, ◌++◌, ◌==◌,
  if◌then◌else◌,
}
use vigie.Prelude.Texts.{append, has_prefix}
use vigie.Prelude.Int.{ℤ, pos}
use vigie.Path.{trim_space}
use vigie.Dsl.Types.{ShellCommand, SecretKeySpec, spec, spec_with_fallback}

-- `shell -c script`; without an `env` the command has that of the program, and with one what is listed
-- is added to it. The timeout is in nanoseconds.
pub record Command : Type 0 where
  pub shell : String
  pub script : String
  pub dir : String
  pub env : List String
  pub timeout : ℤ

-- os.ReadFile. A slice of bytes is a text, and `none` where it is nil.
pub data FileAnswer : Type 0 where
  absent : FileAnswer
  unreadable : (text : String) → FileAnswer
  contents : Option String → FileAnswer

-- Cmd.Run, with what stands in the buffers.
pub data CommandAnswer : Type 0 where
  finished : (stdout : Option String) → CommandAnswer
  broke : (text stderr : String) → CommandAnswer

-- The environment, filepath.Join, the files, time.ParseDuration (the text is that of its error), and the
-- commands.
pub record Machine : Type 0 where
  pub get_env : String → String
  pub join : (base path : String) → String
  pub read_file : (path : String) → FileAnswer
  pub parse_duration : String → String × Option ℤ
  pub run : Command → CommandAnswer

pub data ValueError : Type 0 where
  reading_file : (path text : String) → ValueError
  run_required : ValueError
  bad_timeout : (timeout text : String) → ValueError
  command_failed : (text stderr : String) → ValueError
  in_fallback : ValueError → ValueError
  no_source_left : (with_fallback : Bool) → ValueError

-- What resolveOneSource and resolveSecretValue return: a value with the name of its source, no value, or
-- an error.
pub data Answer : Type 0 where
  produced : (value source : String) → Answer
  nothing : Answer
  failed : ValueError → Answer

pub data Probe : Type 0 where
  env_read : (name : String) → Probe
  file_read : (path : String) → Probe
  command_run : Command → Probe

pub record Probed : Type 0 where
  pub probes : List Probe
  pub answer : Answer

unfoldable pub resolve_dep_path : Machine → (path base : String) → String
resolve_dep_path m path base =
    if path == "" || (base == "" || has_prefix path "/") then path else m.join base path

-- A nil slice is no value.
unfoldable pub answer_of : Option String → (source : String) → Answer
answer_of none source = nothing
answer_of (some value) source = produced value source

-- 30 * time.Second
abbrev pub default_generate_timeout : ℤ
default_generate_timeout = pos 30_000_000_000

abbrev assignments : List (String × String) → List String
assignments [] = []
assignments ((k, v) ∷ rest) = append k (append "=" v) ∷ assignments rest

abbrev pub command_of : ShellCommand → (base : String) → (timeout : ℤ) → Command
command_of cmd base timeout = record {
  shell = if cmd.shell == "" then "sh" else cmd.shell;
  script = cmd.run;
  dir = if cmd.dir == "" then base else cmd.dir;
  env = assignments cmd.env;
  timeout = timeout;
}

abbrev pub command_answer : CommandAnswer → Answer
unfolding answer_of
command_answer (finished stdout) = answer_of stdout "generate"
command_answer (broke text stderr) = failed (command_failed text (trim_space stderr))

abbrev pub run_timed : Machine → ShellCommand → (base : String) → String × Option ℤ → Probed
run_timed m cmd base (text, none) = record {
  probes = [];
  answer = failed (bad_timeout cmd.timeout text);
}
run_timed m cmd base (text, some timeout) =
    let command = command_of cmd base timeout in
    record { probes = command_run command ∷ []; answer = command_answer (m.run command) }

unfoldable pub run_generate : Machine → ShellCommand → (base : String) → Probed
run_generate m cmd base =
    if cmd.run == ""
    then record { probes = []; answer = failed run_required }
    else if cmd.timeout == ""
    then run_timed m cmd base ("", some default_generate_timeout)
    else run_timed m cmd base (m.parse_duration cmd.timeout)

abbrev pub env_answer : (name value : String) → Answer
env_answer name value = if value == "" then nothing else produced value (append "env:" name)

abbrev pub file_answer : (path : String) → FileAnswer → Answer
unfolding answer_of
file_answer path absent = nothing
file_answer path (unreadable text) = failed (reading_file path text)
file_answer path (contents c) = answer_of c (append "file:" path)

abbrev pub read_source : Machine → (path : String) → Probed
read_source m path = record {
  probes = file_read path ∷ [];
  answer = file_answer path (m.read_file path);
}

abbrev pub generated : Machine → (base : String) → Option ShellCommand → Probed
generated m base none = record { probes = []; answer = nothing }
generated m base (some cmd) = run_generate m cmd base

unfoldable pub resolve_one_source :
    Machine → (base env file : String) → Option ShellCommand → Probed
resolve_one_source m base env file generate =
    if not (env == "")
    then record { probes = env_read env ∷ []; answer = env_answer env (m.get_env env) }
    else if not (file == "")
    then read_source m (resolve_dep_path m file base)
    else generated m base generate

-- The fallback's result, in that of the whole key.
abbrev pub of_fallback : Answer → Answer
of_fallback (produced value source) = produced value (append "fallback:" source)
of_fallback nothing = failed (no_source_left true)
of_fallback (failed e) = failed (in_fallback e)

-- The result of a key without a fallback, and with one.
abbrev pub alone : Answer → Answer
alone nothing = failed (no_source_left false)
alone a = a

abbrev pub or_fallback : List Probe → Answer → (rest : Probed) → Probed
or_fallback ps nothing rest = record {
  probes = ps ++ rest.probes;
  answer = of_fallback rest.answer;
}
or_fallback ps a rest = record { probes = ps; answer = a }

unfoldable pub resolve_secret_value : Machine → (base : String) → SecretKeySpec → Probed
resolve_secret_value m base (spec key env file generate) =
    let one = resolve_one_source m base env file generate in
    record { probes = one.probes; answer = alone one.answer }
resolve_secret_value m base (spec_with_fallback key env file generate fallback) =
    let one = resolve_one_source m base env file generate in
    let rest = resolve_secret_value m base fallback in or_fallback one.probes one.answer rest
