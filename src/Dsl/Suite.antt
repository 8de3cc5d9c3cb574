-- ===== src/Dsl/Suite.antt =====
-- internal/dsl/types.go: a suite and its tests. A nil map that is told from an empty one is `none`.
use vigie.Prelude.{String, Bool, Option, List}
use vigie.Prelude.Int.{ℤ}
use vigie.Value.{Value, Fields}
use vigie.Dsl.Types.{ShellCommand, Dependency}
use vigie.Dsl.Assertion.{TargetSpec, Assertions}

pub record ChartSpec : Type 0 where
  pub path : String
  pub dependencies : String

pub record ReleaseInputs : Type 0 where
  pub name : String
  pub namespace : String
  pub revision : ℤ
  pub is_install : Bool
  pub is_upgrade : Bool

pub record CapabilityInputs : Type 0 where
  pub kube_version : String
  pub api_versions : List String

pub record Inputs : Type 0 where
  pub set : Option Fields
  pub set_json : Fields
  pub set_literal : List (String × String)
  pub values : List String
  pub release : Option ReleaseInputs
  pub capabilities : Option CapabilityInputs

pub record Test : Type 0 where
  pub it : String
  pub skip : Value
  pub inputs : Option Inputs
  pub matrix : Option Fields
  pub cases : List Fields
  pub for_each : Bool
  pub call : String
  pub args : Fields
  pub output_as : String
  pub target : Option TargetSpec
  pub asserts : Assertions
  pub setup : List ShellCommand
  pub teardown : List ShellCommand

pub record Suite : Type 0 where
  pub schema : String
  pub suite_name : String
  pub version : String
  pub tier : String
  pub templates : List String
  pub helpers : List String
  pub chart : Option ChartSpec
  pub defaults : Option Inputs
  pub dependencies : List Dependency
  pub before_all : List ShellCommand
  pub after_all : List ShellCommand
  pub tests : List Test
