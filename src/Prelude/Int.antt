-- ===== src/Prelude/Int.antt =====
-- Go's `int` where the program only steps it up or down and compares it. `negsuc n` is -(n + 1).
use vigie.Prelude.{ℕ, zero, suc, ◌+◌, ◌≡◌, refl, ap, Bool, true, false, arith, leb, eqb}

pub data ℤ : Type 0 where
  pos : ℕ → ℤ
  negsuc : ℕ → ℤ

-- n--
unfoldable pub decrement : ℤ → ℤ
decrement (pos zero) = negsuc zero
decrement (pos (suc n)) = pos n
decrement (negsuc n) = negsuc (suc n)

-- n == 0
unfoldable pub is_zero : ℤ → Bool
is_zero (pos zero) = true
is_zero (pos (suc n)) = false
is_zero (negsuc n) = false

-- 0 < n
unfoldable pub is_positive : ℤ → Bool
is_positive (pos zero) = false
is_positive (pos (suc n)) = true
is_positive (negsuc n) = false

-- n < 0
unfoldable pub is_negative : ℤ → Bool
is_negative (pos n) = false
is_negative (negsuc n) = true

-- m <= n
unfoldable pub leb_int : ℤ → ℤ → Bool
leb_int (pos m) (pos n) = leb m n
leb_int (pos m) (negsuc n) = false
leb_int (negsuc m) (pos n) = true
leb_int (negsuc m) (negsuc n) = leb n m

-- m == n
unfoldable pub eq_int : ℤ → ℤ → Bool
eq_int (pos m) (pos n) = eqb m n
eq_int (pos m) (negsuc n) = false
eq_int (negsuc m) (pos n) = false
eq_int (negsuc m) (negsuc n) = eqb m n

-- n - k
unfoldable pub minus : ℤ → ℕ → ℤ
minus n zero = n
minus n (suc k) = minus (decrement n) k

pub decrement-hit :
    (n : ℤ)
    → is_zero (decrement n) ≡ true
    → (is_positive n ≡ true) × (is_positive (decrement n) ≡ false)
unfolding decrement is_zero is_positive
decrement-hit (pos zero) h = cc
decrement-hit (pos (suc zero)) h = (refl, refl)
decrement-hit (pos (suc (suc n))) h = cc
decrement-hit (negsuc n) h = cc

pub decrement-miss :
    (n : ℤ) → is_zero (decrement n) ≡ false → is_positive (decrement n) ≡ is_positive n
unfolding decrement is_zero is_positive
decrement-miss (pos zero) h = refl
decrement-miss (pos (suc zero)) h = cc
decrement-miss (pos (suc (suc n))) h = refl
decrement-miss (negsuc n) h = refl

-- n - n + k, for counts.
pub minus-pos : (b c : ℕ) → minus (pos (b + c)) b ≡ pos c
unfolding minus decrement
minus-pos zero c = ap pos (omega arith)
minus-pos (suc b) c = let e : suc b + c ≡ suc (b + c) = omega arith in rw e (minus-pos b c)
