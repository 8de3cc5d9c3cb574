-- ===== src/Http/JsonPath/Written.antt =====
-- internal/matchers/http.go: paths of keys and indices as they are written, and the segments that
-- splitJSONPathSegment takes off them.
use Prim.Native.Char.{Char, code}
use vigie.Prelude.{
  String, ◌≡◌, refl, ap, ℕ, suc, ◌+◌, ◌<◌, true, false, not, Option, none, some, List, [], ◌∷◌, eqb,
  ltb, arith, All, &&-true, not-true,
}
use vigie.Prelude.Texts.{
  append, size, every, index_of, take, drop, has_prefix, append-empty, take_all, drop_all,
}
use vigie.Prelude.Int.{pos}
use vigie.Path.Scan.{is_plain}
use vigie.Path.Printed.{Form, dotted, quoted, indexed, is_filled}
use vigie.Http.JsonPath.{trim_dot, split_dotted, split_segment, parse_array_index}

-- The keys `foo` and the indices `[0]` of a path: a dot stands in front of a key that follows
-- something.
abbrev pub dot_if_key : List Form → String → String
dot_if_key (dotted k ∷ fs) s = String.◌∷◌ "." s
dot_if_key _ s = s

abbrev pub write_form : Form → String → String
write_form (indexed t n) rest = String.◌∷◌ "[" (append t (String.◌∷◌ "]" rest))
write_form (dotted k) rest = append k rest
write_form (quoted k) rest = append k rest

abbrev pub write : List Form → String
write [] = ""
write (f ∷ fs) = write_form f (dot_if_key fs (write fs))

abbrev pub text_of : Form → String
text_of (dotted k) = k
text_of (quoted k) = k
text_of (indexed t n) = t

-- A key has a character and neither '.' nor '['. The text of an index has no ']' and is one that
-- Sscanf reads as the index. There are no quoted keys.
abbrev pub IsCommon : Form → Type 0
IsCommon (dotted k) = (is_filled k ≡ true) × (every is_plain k ≡ true)
IsCommon (quoted k) = true ≡ false
IsCommon (indexed t n) =
    (every (λ c. not (eqb c 93)) t ≡ true) × (parse_array_index t ≡ some (pos n))

abbrev next : Option ℕ → Option ℕ
next none = none
next (some i) = some (suc i)

-- An index moved behind a text.
abbrev shift : String → Option ℕ → Option ℕ
shift String.[] o = o
shift (String.◌∷◌ c k) o = next (shift k o)

shift-some : (k : String) (i : ℕ) → shift k (some i) ≡ some (size k + i)
shift-some String.[] i = ap some (omega arith)
shift-some (String.◌∷◌ c k) i = rw (shift-some k i) (ap some (omega arith))

shift-none : (k : String) → shift k none ≡ none
shift-none String.[] = refl
shift-none (String.◌∷◌ c k) = rw (shift-none k) refl

shift-first : (k : String) → shift k (some 0) ≡ some (size k)
shift-first String.[] = refl
shift-first (String.◌∷◌ c k) = rw (shift-first k) refl

next_lem : (o : Option ℕ) → elim o [ none ↦ none | some i ↦ some (suc i) ] ≡ next o
next_lem none = refl
next_lem (some i) = refl

index_of-shift :
    (at : ℕ) (k r : String)
    → every (λ c. not (eqb c at)) k ≡ true
    → index_of at (append k r) ≡ shift k (index_of at r)
unfolding index_of
index_of-shift at String.[] r h = refl
index_of-shift at (String.◌∷◌ c k) r h =
    let (head, tail) = &&-true (not (eqb (code c) at)) (every (λ c. not (eqb c at)) k) h in
    rw (not-true (eqb (code c) at) head, index_of-shift at k r tail)
      (next_lem (shift k (index_of at r)))

drop_after : (k r : String) (c : Char) → drop (suc (size k)) (append k (String.◌∷◌ c r)) ≡ r
unfolding drop
drop_after String.[] r c = refl
drop_after (String.◌∷◌ d k) r c = drop_after k r c

trim_dot_if_key :
    (fs : List Form) → All IsCommon fs → trim_dot (dot_if_key fs (write fs)) ≡ write fs
trim_dot_if_key [] h = refl
trim_dot_if_key (dotted k ∷ fs) h = refl
trim_dot_if_key (quoted k ∷ fs) (h, hs) = cc
trim_dot_if_key (indexed t n ∷ fs) h = refl

plain_dot : (k : String) → every is_plain k ≡ true → every (λ c. not (eqb c 46)) k ≡ true
plain_dot String.[] h = refl
plain_dot (String.◌∷◌ c k) h = ground (arith, plain_dot k)

plain_bracket : (k : String) → every is_plain k ≡ true → every (λ c. not (eqb c 91)) k ≡ true
plain_bracket String.[] h = refl
plain_bracket (String.◌∷◌ c k) h = ground (arith, plain_bracket k)

opens_plain :
    (k r : String)
    → is_filled k ≡ true
    → every is_plain k ≡ true
    → has_prefix (append k r) "[" ≡ false
unfolding has_prefix
opens_plain String.[] r f h = cc
opens_plain (String.◌∷◌ c k) r f h = ground arith

-- A key at the end, in front of a dot, and in front of a bracket.
split_dotted_end :
    (k : String)
    → every is_plain k ≡ true
    → split_dotted (index_of 46 (append k "")) (index_of 91 (append k "")) (append k "") ≡ (k, "")
unfolding index_of
split_dotted_end k h =
    rw
      (
        index_of-shift 46 k "" (plain_dot k h),
        index_of-shift 91 k "" (plain_bracket k h),
        shift-none k,
        append-empty k,
      )
      refl

-- The dot is met first, whatever follows it.
dot_first :
    (k r : String) (o : Option ℕ)
    → split_dotted (some (size k)) (shift k (next o)) (append k (String.◌∷◌ "." r)) ≡ (k, r)
dot_first k r none = rw (shift-none k, take_all k (String.◌∷◌ "." r), drop_after k r ".") refl
dot_first k r (some b) =
    let less : ltb (size k) (size k + suc b) ≡ true = ground arith in
    rw (shift-some k (suc b), less, take_all k (String.◌∷◌ "." r), drop_after k r ".") refl

bracket_first :
    (k r : String) (o : Option ℕ)
    → split_dotted (shift k (next o)) (some (size k)) (append k (String.◌∷◌ "[" r))
      ≡ (k, String.◌∷◌ "[" r)
bracket_first k r none =
    rw (shift-none k, take_all k (String.◌∷◌ "[" r), drop_all k (String.◌∷◌ "[" r)) refl
bracket_first k r (some b) =
    let more : ltb (size k + suc b) (size k) ≡ false = ground arith in
    rw (shift-some k (suc b), more, take_all k (String.◌∷◌ "[" r), drop_all k (String.◌∷◌ "[" r))
      refl

split_dotted_dot :
    (k r : String)
    → every is_plain k ≡ true
    → let path = append k (String.◌∷◌ "." r) in
      split_dotted (index_of 46 path) (index_of 91 path) path ≡ (k, r)
unfolding index_of
split_dotted_dot k r h =
    rw
      (
        index_of-shift 46 k (String.◌∷◌ "." r) (plain_dot k h),
        index_of-shift 91 k (String.◌∷◌ "." r) (plain_bracket k h),
        shift-first k,
        next_lem (index_of 91 r),
      )
      (dot_first k r (index_of 91 r))

split_dotted_bracket :
    (k r : String)
    → every is_plain k ≡ true
    → let path = append k (String.◌∷◌ "[" r) in
      split_dotted (index_of 46 path) (index_of 91 path) path ≡ (k, String.◌∷◌ "[" r)
unfolding index_of
split_dotted_bracket k r h =
    rw
      (
        index_of-shift 46 k (String.◌∷◌ "[" r) (plain_dot k h),
        index_of-shift 91 k (String.◌∷◌ "[" r) (plain_bracket k h),
        shift-first k,
        next_lem (index_of 46 r),
      )
      (bracket_first k r (index_of 46 r))

split_key :
    (k : String) (fs : List Form)
    → is_filled k ≡ true
    → every is_plain k ≡ true
    → All IsCommon fs
    → split_segment (append k (dot_if_key fs (write fs))) ≡ (k, write fs)
unfolding split_segment
split_key k [] f h hs = rw (opens_plain k "" f h) (split_dotted_end k h)
split_key k (dotted j ∷ fs) f h hs =
    let rest = write (dotted j ∷ fs) in
    rw (opens_plain k (String.◌∷◌ "." rest) f h) (split_dotted_dot k rest h)
split_key k (quoted j ∷ fs) f h (g, hs) = cc
split_key k (indexed t n ∷ fs) f h hs =
    let rest = append t (String.◌∷◌ "]" (dot_if_key fs (write fs))) in
    rw (opens_plain k (String.◌∷◌ "[" rest) f h) (split_dotted_bracket k rest h)

split_index :
    (t : String) (fs : List Form)
    → every (λ c. not (eqb c 93)) t ≡ true
    → All IsCommon fs
    → split_segment (String.◌∷◌ "[" (append t (String.◌∷◌ "]" (dot_if_key fs (write fs)))))
      ≡ (t, write fs)
unfolding split_segment has_prefix index_of take drop
split_index t fs h hs =
    let rest = dot_if_key fs (write fs) in
    rw
      (
        index_of-shift 93 t (String.◌∷◌ "]" rest) h,
        shift-first t,
        take_all t (String.◌∷◌ "]" rest),
        drop_after t rest "]",
        trim_dot_if_key fs hs,
      )
      refl

pub split-write :
    (f : Form) (fs : List Form)
    → IsCommon f
    → All IsCommon fs
    → split_segment (write (f ∷ fs)) ≡ (text_of f, write fs)
split-write (dotted k) fs (f, h) hs = split_key k fs f h hs
split-write (quoted k) fs h hs = cc
split-write (indexed t n) fs (h, e) hs = split_index t fs h hs

pub write-filled : (f : Form) (fs : List Form) → IsCommon f → 0 < size (write (f ∷ fs))
write-filled (dotted String.[]) fs h = cc
write-filled (dotted (String.◌∷◌ c k)) fs h = omega arith
write-filled (quoted k) fs h = cc
write-filled (indexed t n) fs h = omega arith
