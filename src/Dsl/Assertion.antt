-- ===== src/Dsl/Assertion.antt =====
-- internal/dsl/types.go: an assertion and the specs of its matchers. The fields of Assertion that hold
-- assertions themselves (AllOf, AnyOf, Lookup) are arguments of its constructor, the others the record
-- Leaves; a pointer is an Option.
use vigie.Prelude.{String, Bool, true, false, Option, none, some, List}
use vigie.Prelude.Int.{ℤ}
use vigie.Value.{Value, Fields}
use vigie.Dsl.Types.{WaitForSpec}

pub record TargetSpec : Type 0 where
  pub kind : String
  pub name : String
  pub namespace : String
  pub api_version : String
  pub labels : List (String × String)
  pub document_index : Option ℤ
  pub expr : String

pub record PathValue : Type 0 where
  pub path : String
  pub value : Value

pub record PathContent : Type 0 where
  pub path : String
  pub content : Value

pub record PathPattern : Type 0 where
  pub path : String
  pub pattern : String

pub record PathOnly : Type 0 where
  pub path : String

pub record FailedTemplateSpec : Type 0 where
  pub error_pattern : String

pub record IsTypeSpec : Type 0 where
  pub path : String
  pub of : String

pub record LengthEqualSpec : Type 0 where
  pub path : String
  pub value : ℤ

pub record MatchSnapshotSpec : Type 0 where
  pub path : String

pub record MatchSchemaSpec : Type 0 where
  pub path : String
  pub schema : Fields

-- A struct without fields.
pub data AppliesSpec : Type 0 where
  applies_spec : AppliesSpec

pub record RejectedSpec : Type 0 where
  pub reason : String
  pub message : String

pub record HttpTarget : Type 0 where
  pub kind : String
  pub name : String
  pub namespace : String
  pub port : ℤ
  pub url : String

pub record HttpRetries : Type 0 where
  pub count : ℤ
  pub interval : String
  pub until : String

pub record HttpAssertBlock : Type 0 where
  pub status : ℤ
  pub headers : List (String × String)
  pub body : Value
  pub body_contains : String
  pub json_path : Fields

pub record HttpAssert : Type 0 where
  pub via : String
  pub target : Option HttpTarget
  pub method : String
  pub path : String
  pub host : String
  pub headers : List (String × String)
  pub body : Value
  pub timeout : String
  pub retries : Option HttpRetries
  pub assert : Option HttpAssertBlock

pub record LogsPodSelector : Type 0 where
  pub name : String
  pub label_selector : String
  pub namespace : String

pub record LogsAssert : Type 0 where
  pub pod : LogsPodSelector
  pub container : String
  pub pattern : String
  pub within : String

pub record EventObjectRef : Type 0 where
  pub kind : String
  pub name : String
  pub namespace : String

pub record EventAssert : Type 0 where
  pub involved_object : EventObjectRef
  pub reason : String
  pub type : String
  pub within : String

-- The scalar fields of LookupAssert.
pub record LookupQuery : Type 0 where
  pub kind : String
  pub name : String
  pub namespace : String
  pub label_selector : String
  pub within : String
  pub until : Option PathValue

-- The matcher fields that hold no assertions.
pub record Leaves : Type 0 where
  pub equal : Option PathValue
  pub not_equal : Option PathValue
  pub greater_than : Option PathValue
  pub less_than : Option PathValue
  pub gte : Option PathValue
  pub lte : Option PathValue
  pub contains : Option PathContent
  pub not_contains : Option PathContent
  pub starts_with : Option PathValue
  pub ends_with : Option PathValue
  pub match_regex : Option PathPattern
  pub not_match_regex : Option PathPattern
  pub match_template : Option PathPattern
  pub exists : Option PathOnly
  pub not_exists : Option PathOnly
  pub is_null : Option PathOnly
  pub is_not_null : Option PathOnly
  pub is_empty : Option PathOnly
  pub is_not_empty : Option PathOnly
  pub is_kind : Option String
  pub is_api_version : Option String
  pub has_documents : Option ℤ
  pub failed_template : Option FailedTemplateSpec
  pub is_type : Option IsTypeSpec
  pub length_equal : Option LengthEqualSpec
  pub is_subset : Option PathContent
  pub match_snapshot : Option MatchSnapshotSpec
  pub match_schema : Option MatchSchemaSpec
  pub expr : Option String
  pub applies : Option AppliesSpec
  pub rejected : Option RejectedSpec
  pub wait_for : Option WaitForSpec
  pub becomes_ready : Option WaitForSpec
  pub http : Option HttpAssert
  pub logs_contain : Option LogsAssert
  pub event_emitted : Option EventAssert

mutual
  pub data Assertion : Type 0 where
    assertion :
        (negated : Bool)
        → (on : Option TargetSpec) → Leaves
        → (all_of any_of : Assertions) → Lookup
        → Assertion

  pub data Assertions : Type 0 where
    nil : Assertions
    cons : Assertion → Assertions → Assertions

  -- The pointer to LookupAssert, with its `then` and `forEach`.
  pub data Lookup : Type 0 where
    no_lookup : Lookup
    lookup : LookupQuery → (then_asserts for_each : Assertions) → Lookup

abbrev pub leaves : Assertion → Leaves
leaves (assertion n on ls all any l) = ls

abbrev pub all_of : Assertion → Assertions
all_of (assertion n on ls all any l) = all

abbrev pub any_of : Assertion → Assertions
any_of (assertion n on ls all any l) = any

abbrev pub lookup_of : Assertion → Lookup
lookup_of (assertion n on ls all any l) = l

abbrev pub is_set {ℓ} : {A : Type ℓ} → Option A → Bool
is_set none = false
is_set (some x) = true

abbrev pub has_lookup : Lookup → Bool
has_lookup no_lookup = false
has_lookup (lookup q t e) = true

-- len(list) > 0
abbrev pub is_filled : Assertions → Bool
is_filled nil = false
is_filled (cons a rest) = true

-- An assertion that sets nothing.
abbrev pub no_leaves : Leaves
no_leaves = record {
  equal = none;
  not_equal = none;
  greater_than = none;
  less_than = none;
  gte = none;
  lte = none;
  contains = none;
  not_contains = none;
  starts_with = none;
  ends_with = none;
  match_regex = none;
  not_match_regex = none;
  match_template = none;
  exists = none;
  not_exists = none;
  is_null = none;
  is_not_null = none;
  is_empty = none;
  is_not_empty = none;
  is_kind = none;
  is_api_version = none;
  has_documents = none;
  failed_template = none;
  is_type = none;
  length_equal = none;
  is_subset = none;
  match_snapshot = none;
  match_schema = none;
  expr = none;
  applies = none;
  rejected = none;
  wait_for = none;
  becomes_ready = none;
  http = none;
  logs_contain = none;
  event_emitted = none;
}
