-- ===== src/Runner/Expand/Samples.antt =====
-- internal/runner/runner.go: a test with two matrix entries, one with a case, and one with neither.
use vigie.Prelude.{String, refl, none, some, List, [], ◌∷◌}
use vigie.Prelude.Int.{pos}
use vigie.Value.{str, int, slice, nil, cons, object, end, field}
use vigie.Dsl.Assertion
use vigie.Dsl.Suite.{Test}
use vigie.Dsl.Ceiling.Samples.{test_of}
use vigie.Matrix.{expand}
use vigie.Matrix.Cases.{expand_cases}
use vigie.Runner.Expand.{Templating, Expansion, expand_tests}
use vigie.Runner.Expand.Listed.{ExpandsAll, expand_tests-ExpandsAll}

-- Nothing in these tests is interpolated.
abbrev pub plain : Templating
plain = record {
  print_value = λ v. elim v [ str s ↦ s | _ ↦ "?" ];
  interpolate = λ test bindings. ("", some test);
}

abbrev bare : Test
bare = test_of Assertion.nil

abbrev over_tiers : Test
over_tiers = record bare {
  it = "runs";
  matrix = some (field "tier" (slice (cons (str "a") (cons (str "b") nil))) end);
}

abbrev with_case : Test
with_case = record bare {
  it = "scales";
  cases = field "set" (object (field "n" (int (pos 3)) end)) (field "name" (str "three") end) ∷ [];
}

abbrev of_tier : (tier display_name : String) → Expansion
of_tier tier display_name = record {
  test = over_tiers;
  matrix_entry = some (field "tier" (str tier) end);
  case_entry = none;
  display_name = display_name;
}

abbrev of_case : Expansion
of_case = record {
  test = record with_case {
    inputs = some (record {
      set = some (field "n" (int (pos 3)) end);
      set_json = end;
      set_literal = [];
      values = [];
      release = none;
      capabilities = none;
    });
  };
  matrix_entry = none;
  case_entry =
      some (field "name" (str "three") (field "set" (object (field "n" (int (pos 3)) end)) end));
  display_name = "scales [three]";
}

abbrev as_is : Expansion
as_is = record { test = bare; matrix_entry = none; case_entry = none; display_name = "starts" }

abbrev tests : List Test
tests = over_tiers ∷ with_case ∷ bare ∷ []

abbrev expansions : List Expansion
expansions = of_tier "a" "runs [tier=a]" ∷ of_tier "b" "runs [tier=b]" ∷ of_case ∷ as_is ∷ []

expand_tests-ExpandsAll_example : ExpandsAll plain tests expansions
unfolding expand_tests expand expand_cases
expand_tests-ExpandsAll_example = expand_tests-ExpandsAll plain tests expansions refl
