-- ===== src/Runner/Namespace/Labels.antt =====
-- internal/runner/apply.go: the namespace of a test is a DNS label.
use Prim.Native.Nat.{◌/◌, ◌%◌}
use vigie.Prelude.{
  String, ℕ, zero, suc, ◌-◌, ◌≤◌, ◌<◌, ◌≡◌, refl, Bool, true, false, ◌&&◌, ◌||◌, not, Option, none,
  some, List, [], ◌∷◌, ◌++◌, eqb, length, length-append, All, All-append, All-map, Bool-cases, inl,
  inr, arith,
}
use vigie.Prelude.Texts.{lower}
use vigie.Runner.Namespace.{
  codes, is_alnum, is_separator, sanitize_from, trim_dashes_left, all_dashes, trim_dashes_right,
  sanitize_dns_label, hex_digit, hex_byte, rand_hex, cut_to, or_test, max_len, allocate_namespace,
}

abbrev pub IsAlnum : ℕ → Type 0
IsAlnum r = is_alnum r ≡ true

-- A lower-case letter, a digit or a dash.
abbrev pub IsLabelChar : ℕ → Type 0
IsLabelChar r = (is_alnum r || eqb r 45) ≡ true

abbrev pub EndsIn : (ℕ → Type 0) → List ℕ → Type 0
EndsIn P [] = true ≡ false
EndsIn P (r ∷ []) = P r
EndsIn P (r ∷ s ∷ rs) = EndsIn P (s ∷ rs)

-- RFC 1123: at most 63 characters, of these, and no dash at either end.
pub record IsDnsLabel (rs : List ℕ) : Type 0 where
  pub short : length rs ≤ 63
  pub chars : All IsLabelChar rs
  pub starts : (r : ℕ) × (rest : List ℕ) × (rs ≡ r ∷ rest) × IsAlnum r
  pub ends : EndsIn IsAlnum rs

sanitize_from-All :
    (runes : List ℕ) (prev_dash written : Bool)
    → All IsLabelChar (sanitize_from runes prev_dash written)
unfolding sanitize_from
sanitize_from-All [] prev_dash written = tt
sanitize_from-All (r ∷ runes) prev_dash written = elim (Bool-cases (is_alnum (lower r))) [
  | inl e ↦ rw e (rw e refl, sanitize_from-All runes false true)
  | inr e ↦ elim (Bool-cases (is_separator (lower r) && (not prev_dash && written))) [
    | inl d ↦ rw (e, d) (refl, sanitize_from-All runes true true)
    | inr d ↦ rw (e, d) (sanitize_from-All runes prev_dash written)
  ]
]

module _ (P : ℕ → Type 0) where
  trim_left-All : (rs : List ℕ) → All P rs → All P (trim_dashes_left rs)
  trim_left-All [] h = tt
  trim_left-All (r ∷ rs) h = elim (Bool-cases (eqb r 45)) [
    | inl e ↦ rw e (trim_left-All rs h.1)
    | inr e ↦ rw e h
  ]

  trim_right-All : (rs : List ℕ) → All P rs → All P (trim_dashes_right rs)
  trim_right-All [] h = tt
  trim_right-All (r ∷ rs) h = elim (Bool-cases (all_dashes (r ∷ rs))) [
    | inl e ↦ rw e tt
    | inr e ↦ rw e (h.0, trim_right-All rs h.1)
  ]

  cut_to-All : (n : ℕ) (rs : List ℕ) → All P rs → All P (cut_to n rs)
  unfolding cut_to
  cut_to-All zero rs h = tt
  cut_to-All (suc n) [] h = tt
  cut_to-All (suc n) (r ∷ rs) h = (h.0, cut_to-All n rs h.1)

  EndsIn-append : (xs : List ℕ) (y : ℕ) (ys : List ℕ) → EndsIn P (y ∷ ys) → EndsIn P (xs ++ y ∷ ys)
  EndsIn-append [] y ys h = h
  EndsIn-append (x ∷ []) y ys h = h
  EndsIn-append (x ∷ z ∷ xs) y ys h = EndsIn-append (z ∷ xs) y ys h

cut_to-length : (n : ℕ) (rs : List ℕ) → length (cut_to n rs) ≤ n
unfolding cut_to
cut_to-length zero rs = omega arith
cut_to-length (suc n) [] = omega arith
cut_to-length (suc n) (r ∷ rs) = omega (arith, cut_to-length n rs)

hex_digit-IsAlnum : (n : ℕ) → n < 16 → IsAlnum (hex_digit n)
hex_digit-IsAlnum n h = ground arith

alnum-IsLabelChar : (r : ℕ) → IsAlnum r → IsLabelChar r
alnum-IsLabelChar r h = rw h refl

high : (b : ℕ) → IsAlnum (hex_digit (b % 256 / 16))
high b = hex_digit-IsAlnum (b % 256 / 16) (omega arith)

low : (b : ℕ) → IsAlnum (hex_digit (b % 16))
low b = hex_digit-IsAlnum (b % 16) (omega arith)

rand_hex-length : (random : Option (ℕ × ℕ × ℕ × ℕ)) → length (rand_hex random) ≡ 8
unfolding rand_hex
rand_hex-length none = refl
rand_hex-length (some (a, b, c, d)) = refl

-- The suffix is not empty, and of letters and digits.
rand_hex-cases :
    (random : Option (ℕ × ℕ × ℕ × ℕ))
    → (y : ℕ) × (ys : List ℕ) × (rand_hex random ≡ y ∷ ys)
      × All IsAlnum (y ∷ ys)
      × EndsIn IsAlnum (y ∷ ys)
unfolding rand_hex
rand_hex-cases none = (
  48,
  48 ∷ 48 ∷ 48 ∷ 48 ∷ 48 ∷ 48 ∷ 48 ∷ [],
  refl,
  (refl, (refl, (refl, (refl, (refl, (refl, (refl, (refl, tt)))))))),
  refl,
)
rand_hex-cases (some (a, b, c, d)) = (
  hex_digit (a % 256 / 16),
  hex_digit (a % 16) ∷ (hex_byte b ++ (hex_byte c ++ hex_byte d)),
  refl,
  (high a, (low a, (high b, (low b, (high c, (low c, (high d, (low d, tt)))))))),
  low d,
)

or_test-All : (rs : List ℕ) → All IsLabelChar rs → All IsLabelChar (or_test rs)
or_test-All [] h = (refl, (refl, (refl, (refl, tt))))
or_test-All (r ∷ rs) h = h

or_test-length : (rs : List ℕ) → length rs ≤ 51 → length (or_test rs) ≤ 51
or_test-length [] h = omega arith
or_test-length (r ∷ rs) h = h

-- A prefix, a middle of at most 51 characters and a suffix of 8.
label :
    (middle : List ℕ) (y : ℕ) (ys : List ℕ)
    → length middle ≤ 51
    → All IsLabelChar middle
    → length (y ∷ ys) ≡ 8
    → All IsAlnum (y ∷ ys)
    → EndsIn IsAlnum (y ∷ ys)
    → IsDnsLabel (codes "vg-" ++ (middle ++ 45 ∷ y ∷ ys))
label middle y ys short chars size alnum last = record {
  short = (let added = length-append middle (45 ∷ y ∷ ys) in omega arith);
  chars = (
    refl,
    (
      refl,
      (
        refl,
        All-append IsLabelChar middle (45 ∷ y ∷ ys) chars
            (refl, All-map IsAlnum IsLabelChar (y ∷ ys) alnum-IsLabelChar alnum),
      ),
    ),
  );
  starts = (118, _, refl, refl);
  ends = EndsIn-append IsAlnum (118 ∷ 103 ∷ 45 ∷ middle) 45 (y ∷ ys) last;
}

sanitize_dns_label-All : (s : String) → All IsLabelChar (sanitize_dns_label s)
unfolding sanitize_dns_label
sanitize_dns_label-All s =
    trim_right-All IsLabelChar (trim_dashes_left (sanitize_from (codes s) false false)) (
      trim_left-All IsLabelChar (sanitize_from (codes s) false false)
        (sanitize_from-All (codes s) false false))

-- Whatever the display name is and whatever the randomness, the namespace that is allocated for a test is a
-- DNS label: at most 63 lower-case letters, digits and dashes, with no dash at either end.
pub allocate_namespace-IsDnsLabel :
    (display_name : String) (random : Option (ℕ × ℕ × ℕ × ℕ))
    → IsDnsLabel (allocate_namespace display_name random)
unfolding allocate_namespace
allocate_namespace-IsDnsLabel display_name random =
    let (y, ys, e, alnum, last) = rand_hex-cases random in
    let size : length (y ∷ ys) ≡ 8 = rw e at (rand_hex-length random) in
    let budget : max_len - length (codes "vg-") - 1 - length (y ∷ ys) ≡ 51 = omega (arith, size) in
    let clean = sanitize_dns_label display_name in
    rw (e, budget)
      (label (or_test (cut_to 51 clean)) y ys
        (or_test-length (cut_to 51 clean) (cut_to-length 51 clean))
        (or_test-All (cut_to 51 clean)
          (cut_to-All IsLabelChar 51 clean (sanitize_dns_label-All display_name)))
        size alnum last)
