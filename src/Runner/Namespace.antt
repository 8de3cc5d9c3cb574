-- ===== src/Runner/Namespace.antt =====
-- internal/runner/apply.go: the namespace of a test. A text is the list of its characters' numbers here.
pub mod Labels
use Prim.Native.Char.{code}
use Prim.Native.Nat.{◌/◌, ◌%◌}
use Prim.Native.String
use vigie.Prelude.{
  String, ℕ, zero, suc, ◌+◌, ◌-◌, Bool, true, false, ◌&&◌, ◌||◌, not, Option, none, some, List, [],
  ◌∷◌, ◌++◌, eqb, ltb, leb, length, if◌then◌else◌,
}
use vigie.Prelude.Texts.{lower}

abbrev pub codes : String → List ℕ
codes String.[] = []
codes (String.◌∷◌ c s) = code c ∷ codes s

-- 'a' to 'z', and '0' to '9'
abbrev pub is_alnum : ℕ → Bool
is_alnum r = leb 97 r && leb r 122 || leb 48 r && leb r 57

-- '-', '_', ' ', '/' and '.'
abbrev pub is_separator : ℕ → Bool
is_separator r = eqb r 45 || eqb r 95 || eqb r 32 || eqb r 47 || eqb r 46

-- The loop over the runes: what it writes, where prev_dash and whether something is written are what they
-- are. The text in lower case is read rune by rune.
unfoldable pub sanitize_from : List ℕ → (prev_dash written : Bool) → List ℕ
sanitize_from [] prev_dash written = []
sanitize_from (r ∷ runes) prev_dash written =
    let kept = sanitize_from runes false true in
    let dashed = sanitize_from runes true true in
    let dropped = sanitize_from runes prev_dash written in
    if is_alnum (lower r)
    then lower r ∷ kept
    else if is_separator (lower r) && (not prev_dash && written)
    then 45 ∷ dashed
    else dropped

-- strings.Trim(out, "-")
abbrev pub trim_dashes_left : List ℕ → List ℕ
trim_dashes_left [] = []
trim_dashes_left (r ∷ rs) = let rest = trim_dashes_left rs in if eqb r 45 then rest else r ∷ rs

abbrev pub all_dashes : List ℕ → Bool
all_dashes [] = true
all_dashes (r ∷ rs) = eqb r 45 && all_dashes rs

abbrev pub trim_dashes_right : List ℕ → List ℕ
trim_dashes_right [] = []
trim_dashes_right (r ∷ rs) =
    let rest = trim_dashes_right rs in if all_dashes (r ∷ rs) then [] else r ∷ rest

unfoldable pub sanitize_dns_label : String → List ℕ
unfolding sanitize_from
sanitize_dns_label s = trim_dashes_right (trim_dashes_left (sanitize_from (codes s) false false))

abbrev pub hex_digit : ℕ → ℕ
hex_digit n = if ltb n 10 then 48 + n else 87 + n

-- The two digits of a byte.
abbrev pub hex_byte : ℕ → List ℕ
hex_byte b = hex_digit (b % 256 / 16) ∷ hex_digit (b % 16) ∷ []

-- randHex(8): of the four bytes that crypto/rand gives, or of none where it fails.
unfoldable pub rand_hex : Option (ℕ × ℕ × ℕ × ℕ) → List ℕ
rand_hex none = 48 ∷ 48 ∷ 48 ∷ 48 ∷ 48 ∷ 48 ∷ 48 ∷ 48 ∷ []
rand_hex (some (a, b, c, d)) = hex_byte a ++ (hex_byte b ++ (hex_byte c ++ hex_byte d))

-- clean[:n] where it is longer
unfoldable pub cut_to : ℕ → List ℕ → List ℕ
cut_to zero rs = []
cut_to (suc n) [] = []
cut_to (suc n) (r ∷ rs) = r ∷ cut_to n rs

abbrev pub or_test : List ℕ → List ℕ
or_test [] = codes "test"
or_test (r ∷ rs) = r ∷ rs

abbrev pub max_len : ℕ
max_len = 63

unfoldable pub allocate_namespace : (display_name : String) → Option (ℕ × ℕ × ℕ × ℕ) → List ℕ
unfolding sanitize_dns_label rand_hex cut_to
allocate_namespace display_name random =
    let suffix = rand_hex random in
    let budget = max_len - length (codes "vg-") - 1 - length suffix in
    let clean = cut_to budget (sanitize_dns_label display_name) in
    codes "vg-" ++ (or_test clean ++ 45 ∷ suffix)
