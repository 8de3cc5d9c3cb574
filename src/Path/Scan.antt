-- ===== src/Path/Scan.antt =====
-- internal/path/path.go: the loop of parse over the parts of a path.
use Prim.Native.Char.{Char, code}
use vigie.Prelude.{
  String, ◌≡◌, refl, sym, ap, ◌∙◌, ℕ, suc, ◌+◌, Bool, true, not, ◌&&◌, some, List, eqb, arith,
  &&-true, not-true,
}
use vigie.Prelude.Texts.{append, append-empty, size, every, append_texts_assoc}
use vigie.Path.{Segment, cut, scan}

-- Neither '.' nor '['.
abbrev pub is_plain : ℕ → Bool
is_plain c = not (eqb c 46) && not (eqb c 91)

-- One unit of fuel more for each character.
abbrev pub one_each : String → ℕ → ℕ
one_each String.[] fuel = fuel
one_each (String.◌∷◌ c k) fuel = suc (one_each k fuel)

pub one_each_lem : (k : String) (fuel : ℕ) → one_each k fuel ≡ size k + fuel
one_each_lem String.[] fuel = omega arith
one_each_lem (String.◌∷◌ c k) fuel = omega (arith, one_each_lem k fuel)

-- The scan moves plain characters to the key.
pub scan-plain :
    (k : String) (fuel : ℕ) (rest : String) (segments : List Segment) (key : String)
    → every is_plain k ≡ true
    → scan (one_each k fuel) (append k rest) segments key ≡ scan fuel rest segments (append key k)
unfolding scan
scan-plain String.[] fuel rest segments key h =
    ap (scan fuel rest segments) (sym (append-empty key))
scan-plain (String.◌∷◌ c k) fuel rest segments key h =
    let (head, tail) = &&-true (is_plain (code c)) (every is_plain k) h in
    let (dot, bracket) = &&-true (not (eqb (code c) 46)) (not (eqb (code c) 91)) head in
    rw (not-true (eqb (code c) 46) dot, not-true (eqb (code c) 91) bracket)
      (scan-plain k fuel rest segments (append key (String.◌∷◌ c String.[])) tail
        ∙ ap (scan fuel rest segments) (append_texts_assoc key (String.◌∷◌ c String.[]) k))

-- The cut of a text at the first character that the text before it does not hold.
pub cut_at :
    (at : ℕ) (k : String) (c : Char) (rest : String)
    → every (λ d. not (eqb d at)) k ≡ true
    → eqb (code c) at ≡ true
    → cut at (append k (String.◌∷◌ c rest)) ≡ some (k, rest)
unfolding cut
cut_at at String.[] c rest h e = rw e refl
cut_at at (String.◌∷◌ d k) c rest h e =
    let (head, tail) = &&-true (not (eqb (code d) at)) (every (λ x. not (eqb x at)) k) h in
    rw (not-true (eqb (code d) at) head, cut_at at k c rest tail e) refl
