-- ===== src/Prelude/Texts.antt =====
-- Texts as lists of characters, for programs that walk them.
use Prim.Native.Char.{code}
use Prim.Native.Nat.{ℕ, zero, suc, ◌+◌, ◌-◌, ◌≤◌, ◌/◌, ◌%◌}
use Prim.Native.String.{String}
use mathlib.Core.Path.{◌≡◌, refl, ap}
use mathlib.Core.Bool.{Bool, true, false, ◌&&◌, ◌||◌}
use mathlib.Core.Option.{Option, none, some}
use native.Mathlib.Omega.{arith}
use text.Mathlib.Text.{◌==◌}
use vigie.Prelude.Tests.{eqb, ltb, leb, if◌then◌else◌}

-- The native operation, by its clauses.
abbrev pub append : String → String → String
append String.[] t = t
append (String.◌∷◌ c s) t = String.◌∷◌ c (append s t)

-- The number of characters.
abbrev pub size : String → ℕ
size String.[] = 0
size (String.◌∷◌ c s) = suc (size s)

-- The test holds at each character.
abbrev pub every : (ℕ → Bool) → String → Bool
every p String.[] = true
every p (String.◌∷◌ c s) = p (code c) && every p s

pub append-empty : (s : String) → append s String.[] ≡ s
append-empty String.[] = refl
append-empty (String.◌∷◌ c s) = ap (String.◌∷◌ c) (append-empty s)

pub append_texts_assoc : (s t u : String) → append (append s t) u ≡ append s (append t u)
append_texts_assoc String.[] t u = refl
append_texts_assoc (String.◌∷◌ c s) t u = ap (String.◌∷◌ c) (append_texts_assoc s t u)

pub size-append : (s t : String) → size (append s t) ≡ size s + size t
size-append String.[] t = omega arith
size-append (String.◌∷◌ c s) t = omega (arith, size-append s t)

-- strings.Index, of one character.
unfoldable pub index_of : (at : ℕ) → String → Option ℕ
index_of at String.[] = none
index_of at (String.◌∷◌ c s) =
    let rest = index_of at s in
    if eqb (code c) at then some 0 else elim rest [ none ↦ none | some i ↦ some (suc i) ]

-- s[:n] and s[n:], up to the end of the text.
unfoldable pub take : ℕ → String → String
take zero s = String.[]
take (suc n) String.[] = String.[]
take (suc n) (String.◌∷◌ c s) = String.◌∷◌ c (take n s)

unfoldable pub drop : ℕ → String → String
drop zero s = s
drop (suc n) String.[] = String.[]
drop (suc n) (String.◌∷◌ c s) = drop n s

-- strings.HasPrefix and strings.Contains, the text first.
unfoldable pub has_prefix : String → String → Bool
has_prefix s String.[] = true
has_prefix String.[] (String.◌∷◌ d t) = false
has_prefix (String.◌∷◌ c s) (String.◌∷◌ d t) = eqb (code c) (code d) && has_prefix s t

unfoldable pub includes : String → String → Bool
unfolding has_prefix
includes String.[] t = has_prefix String.[] t
includes (String.◌∷◌ c s) t = has_prefix (String.◌∷◌ c s) t || includes s t

-- strings.HasSuffix
unfoldable pub has_suffix : String → String → Bool
has_suffix String.[] t = t == String.[]
has_suffix (String.◌∷◌ c s) t = (String.◌∷◌ c s) == t || has_suffix s t

pub size-drop : (n : ℕ) (s : String) → size (drop n s) ≡ size s - n
unfolding drop
size-drop zero s = omega arith
size-drop (suc n) String.[] = omega arith
size-drop (suc n) (String.◌∷◌ c s) = omega (arith, size-drop n s)

pub size-take : (n : ℕ) (s : String) → size (take n s) ≤ n
unfolding take
size-take zero s = omega arith
size-take (suc n) String.[] = omega arith
size-take (suc n) (String.◌∷◌ c s) = omega (arith, size-take n s)

pub take_all : (s t : String) → take (size s) (append s t) ≡ s
unfolding take
take_all String.[] t = refl
take_all (String.◌∷◌ c s) t = ap (String.◌∷◌ c) (take_all s t)

pub drop_all : (s t : String) → drop (size s) (append s t) ≡ t
unfolding drop
drop_all String.[] t = refl
drop_all (String.◌∷◌ c s) t = drop_all s t

abbrev digit_text : ℕ → String
digit_text d =
    if eqb d 0
    then "0"
    else if eqb d 1
    then "1"
    else if eqb d 2
    then "2"
    else if eqb d 3
    then "3"
    else if eqb d 4
    then "4"
    else if eqb d 5
    then "5"
    else if eqb d 6
    then "6"
    else if eqb d 7
    then "7"
    else if eqb d 8
    then "8"
    else "9"

-- The digits in front of a text. A number has at most as many digits as the fuel of decimal.
abbrev digits_before : (fuel : ℕ) → ℕ → String → String
digits_before zero n s = s
digits_before (suc fuel) n s = elim (ltb n 10) [
  | true ↦ append (digit_text n) s
  | false ↦ digits_before fuel (n / 10) (append (digit_text (n % 10)) s)
]

-- %d of a number that is not negative.
abbrev pub decimal : ℕ → String
decimal n = digits_before (suc n) n ""

-- strings.ToLower(s) == t, for a `t` of lower-case ASCII letters: of the other characters, only U+0130
-- and U+212A have such a letter as their lower case.
abbrev pub lower : ℕ → ℕ
lower c =
    if leb 65 c && leb c 90
    then c + 32
    else if eqb c 304
    then 105
    else if eqb c 8490
    then 107
    else c

abbrev pub lowers_to : String → String → Bool
lowers_to String.[] String.[] = true
lowers_to (String.◌∷◌ c s) (String.◌∷◌ d t) = eqb (lower (code c)) (code d) && lowers_to s t
lowers_to _ _ = false
