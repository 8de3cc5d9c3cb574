-- ===== src/Value.antt =====
-- Go's `any` as the YAML decoder fills it: nil, bool, int, float64, string, []any and
-- map[string]any. A float64 is its 64-bit pattern. A map is the list of its entries in the order in
-- which one iteration meets them; Go leaves that order open.
use vigie.Prelude.{ℕ, String, Bool, Option, none, some, ◌==◌, if◌then◌else◌}
use vigie.Prelude.Int.{ℤ}

mutual
  pub data Value : Type 0 where
    null : Value
    bool : Bool → Value
    int : ℤ → Value
    float : (bits : ℕ) → Value
    str : String → Value
    slice : Items → Value
    object : Fields → Value

  pub data Items : Type 0 where
    nil : Items
    cons : Value → Items → Items

  pub data Fields : Type 0 where
    end : Fields
    field : String → Value → Fields → Fields

-- m[k]: `none` where the key is missing.
unfoldable pub get : String → Fields → Option Value
get k end = none
get k (field j v m) = if j == k then some v else get k m

-- m[k] = v
unfoldable pub put : String → Value → Fields → Fields
put k v end = field k v end
put k v (field j w m) = if j == k then field j v m else field j w (put k v m)
