-- ===== src/Dsl/Types.antt =====
-- internal/dsl/types.go: the structs of a dependency and of what it is installed from.
use vigie.Prelude.{String, Option, List}
use vigie.Value.{Fields}

-- The env map is a list of its entries.
pub record ShellCommand : Type 0 where
  pub run : String
  pub shell : String
  pub dir : String
  pub env : List (String × String)
  pub timeout : String

-- A key spec with no fallback, and one with the `fallback` pointer set.
pub data SecretKeySpec : Type 0 where
  spec : (key env file : String) → Option ShellCommand → SecretKeySpec
  spec_with_fallback : (key env file : String) → Option ShellCommand → SecretKeySpec → SecretKeySpec

pub record SecretSource : Type 0 where
  pub keys : List SecretKeySpec

pub record HelmSource : Type 0 where
  pub chart : String
  pub repo : String
  pub version : String

pub record DependencySource : Type 0 where
  pub helm : Option HelmSource
  pub manifest : String
  pub kustomize : String
  pub secret : Option SecretSource
  pub ref : String

pub record WaitForSpec : Type 0 where
  pub kind : String
  pub name : String
  pub namespace : String
  pub label_selector : String
  pub condition : String
  pub timeout : String

pub record Dependency : Type 0 where
  pub name : String
  pub namespace : String
  pub source : DependencySource
  pub values : Fields
  pub wait_for : List WaitForSpec
  pub exports : List (String × String)
  pub scope : String
  pub depends_on : List String
  pub on_fail : String
