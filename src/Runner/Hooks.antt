-- ===== src/Runner/Hooks.antt =====
-- internal/runner/lifecycle.go: the hooks of a suite and of a test.
use vigie.Prelude.{
  String, ℕ, suc, not, Option, none, some, List, [], ◌∷◌, ◌++◌, ◌==◌, if◌then◌else◌,
}
use vigie.Prelude.Texts.{append}
use vigie.Prelude.Int.{ℤ, pos}
use vigie.Dsl.Types.{ShellCommand}

pub data Stage : Type 0 where
  before_all setup teardown after_all : Stage

pub record HookEnv : Type 0 where
  pub kubeconfig : String
  pub suite : String
  pub test : String
  pub namespace : String

-- What is run: `shell -c script`, with what is added to the environment of the program. The timeout is in
-- nanoseconds.
pub record Command : Type 0 where
  pub shell : String
  pub script : String
  pub dir : String
  pub env : List String
  pub timeout : ℤ

pub data HookError : Type 0 where
  run_required : Stage → (idx : ℕ) → HookError
  invalid_timeout : Stage → (idx : ℕ) (timeout text : String) → HookError
  hook_failed : Stage → (idx : ℕ) (text : String) → HookError

-- time.ParseDuration, with an error's text, and the run of a command: `none` is success.
pub record Shell : Type 0 where
  pub parse_duration : String → String × Option ℤ
  pub run : Command → Option String

-- 2 * time.Minute
abbrev pub default_hook_timeout : ℤ
default_hook_timeout = pos 120_000_000_000

abbrev set_var : (name value : String) → List String
set_var name value = if value == "" then [] else append name (append "=" value) ∷ []

abbrev own_vars : List (String × String) → List String
own_vars [] = []
own_vars ((k, v) ∷ rest) = append k (append "=" v) ∷ own_vars rest

abbrev pub command_env : HookEnv → List (String × String) → List String
command_env env vars =
    set_var "KUBECONFIG" env.kubeconfig
    ++ (set_var "VIGIE_SUITE" env.suite
        ++ (set_var "VIGIE_TEST" env.test
            ++ (set_var "VIGIE_NAMESPACE" env.namespace ++ own_vars vars)))

abbrev pub run_command :
    Shell → Stage → (idx : ℕ) → HookEnv → ShellCommand → (timeout : ℤ) → Option HookError
run_command sh stage idx env hook timeout =
    elim (sh.run (record {
      shell = if hook.shell == "" then "sh" else hook.shell;
      script = hook.run;
      dir = hook.dir;
      env = command_env env hook.env;
      timeout = timeout;
    })) [ none ↦ none | some text ↦ some (hook_failed stage idx text) ]

abbrev pub with_parsed :
    Shell → Stage → (idx : ℕ) → HookEnv → ShellCommand → String × Option ℤ → Option HookError
with_parsed sh stage idx env hook (text, none) = some (invalid_timeout stage idx hook.timeout text)
with_parsed sh stage idx env hook (text, some timeout) = run_command sh stage idx env hook timeout

unfoldable pub run_one_hook : Shell → Stage → (idx : ℕ) → HookEnv → ShellCommand → Option HookError
run_one_hook sh stage idx env hook =
    if hook.run == ""
    then some (run_required stage idx)
    else if not (hook.timeout == "")
    then with_parsed sh stage idx env hook (sh.parse_duration hook.timeout)
    else run_command sh stage idx env hook default_hook_timeout

-- The loop of RunHooks: the first failure ends it.
unfoldable pub run_from : Shell → Stage → HookEnv → List ShellCommand → (idx : ℕ) → Option HookError
unfolding run_one_hook
run_from sh stage env [] idx = none
run_from sh stage env (hook ∷ hooks) idx = elim (run_one_hook sh stage idx env hook) [
  | some e ↦ some e
  | none ↦ run_from sh stage env hooks (suc idx)
]

unfoldable pub run_hooks : Shell → Stage → List ShellCommand → HookEnv → Option HookError
unfolding run_from
run_hooks sh stage hooks env = run_from sh stage env hooks 0
