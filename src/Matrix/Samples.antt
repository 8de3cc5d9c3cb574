-- ===== src/Matrix/Samples.antt =====
-- internal/matrix/matrix.go: small matrices.
use vigie.Prelude.{none, ◌≡◌, refl, inr, true, false, some, List, [], ◌∷◌, All}
use vigie.Prelude.Int.{pos}
use vigie.Value.{int, str, slice, object, nil, cons, Fields, end, field}
use vigie.Matrix.{Dim, matches_any_exclude, maps_at, dims_of, expand, ok, panic, is_subset, put_all}
use vigie.Matrix.Cases
use vigie.Matrix.Cases.{expand_cases, missing_name, AllCases, expand_cases_lem}
use vigie.Matrix.Combos.{IsCombo, choices_of, no_choices, expand_lem}
use vigie.Matrix.Merged.{SameAt, put_all-SameAt}

abbrev os : Dim
os = record { key = "os"; values = cons (str "linux") (cons (str "mac") nil) }

abbrev replicas : Dim
replicas = record { key = "replicas"; values = cons (int (pos 1)) (cons (int (pos 3)) nil) }

abbrev one_mac : Fields
one_mac = field "os" (str "mac") end

abbrev raw : Fields
raw = field "os" (slice os.values) (
    field "exclude" (slice (cons (object one_mac) nil))
      (field "replicas" (slice replicas.values) end))

abbrev linux_combos : List Fields
linux_combos =
    field "os" (str "linux") (field "replicas" (int (pos 1)) end)
    ∷ field "os" (str "linux") (field "replicas" (int (pos 3)) end)
    ∷ []

expand-raw : expand raw ≡ ok linux_combos
unfolding expand
expand-raw = refl

-- An exclude rule that holds a list where the combination holds one.
expand-lists :
    expand (
      field "args"
        (slice (cons (slice nil) nil))
        (field "exclude" (slice (cons (object (field "args" (slice nil) end)) nil)) end))
    ≡ panic
unfolding expand
expand-lists = refl

exclude-raw : maps_at "exclude" raw ≡ some (one_mac ∷ [])
unfolding maps_at
exclude-raw = refl

include-raw : maps_at "include" raw ≡ some []
unfolding maps_at
include-raw = refl

dims_of-raw : dims_of raw ≡ inr (os ∷ replicas ∷ [])
unfolding dims_of
dims_of-raw = refl

expand_lem_example :
    All
      (λ c.
        IsCombo (choices_of no_choices (os ∷ replicas ∷ [])) c
        × (matches_any_exclude c (one_mac ∷ []) ≡ some false))
      linux_combos
expand_lem_example =
    expand_lem raw (one_mac ∷ []) (os ∷ replicas ∷ []) linux_combos exclude-raw include-raw
      dims_of-raw expand-raw

mac_subset : is_subset one_mac (field "replicas" (int (pos 1)) one_mac) ≡ some true
unfolding is_subset
mac_subset = refl

put_all-SameAt_example :
    SameAt "os"
      (field "replicas" (int (pos 1)) one_mac)
      (put_all one_mac (field "replicas" (int (pos 1)) one_mac))
put_all-SameAt_example =
    put_all-SameAt one_mac (field "replicas" (int (pos 1)) one_mac) "os" (refl, tt) mac_subset

abbrev small_case : Fields
small_case = field "name" (str "small") (field "size" (int (pos 1)) end)

expand_cases-small :
    expand_cases (small_case ∷ [])
    ≡ Cases.ok (record { name = "small"; set = none; extra = field "size" (int (pos 1)) end } ∷ [])
unfolding expand_cases
expand_cases-small = refl

expand_cases-unnamed : expand_cases (small_case ∷ end ∷ []) ≡ Cases.err (missing_name 1)
unfolding expand_cases
expand_cases-unnamed = refl

expand_cases_lem_example :
    AllCases
      (small_case ∷ [])
      (record { name = "small"; set = none; extra = field "size" (int (pos 1)) end } ∷ [])
expand_cases_lem_example = expand_cases_lem (small_case ∷ []) _ expand_cases-small
