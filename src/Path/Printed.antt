-- ===== src/Path/Printed.antt =====
-- internal/path/path.go: paths as they are written, and what parse reads back.
use Prim.Native.Char.{code}
use vigie.Prelude.{
  String, ◌≡◌, refl, sym, ap, ◌∙◌, ℕ, zero, suc, ◌-◌, ◌≤◌, Bool, true, false, not, ◌||◌, some, List,
  [], ◌∷◌, ◌++◌, map, append_assoc, append-nil, eqb, ◌==◌, arith, not-true, All, ≢→==,
}
use vigie.Prelude.Int.{pos}
use vigie.Prelude.Texts.{append, size, every, size-append}
use vigie.Value.{Value}
use vigie.Path.{
  Segment, key_segment, index_segment, ok, Parsed, scan, flush_key, parse, atoi, trim_space,
  read_index, follow, get, get_parsed, answer,
}
use vigie.Path.Scan.{is_plain, scan-plain, cut_at, one_each, one_each_lem}

-- The ways to write a segment: `.key`, `["key"]` and `[index]`, the index as any text.
pub data Form : Type 0 where
  dotted : (key : String) → Form
  quoted : (key : String) → Form
  indexed : (text : String) → ℕ → Form

abbrev pub print_form : Form → String → String
print_form (dotted k) rest = String.◌∷◌ "." (append k rest)
print_form (quoted k) rest =
    String.◌∷◌ "[" (String.◌∷◌ "\"" (append k (String.◌∷◌ "\"" (String.◌∷◌ "]" rest))))
print_form (indexed t n) rest = String.◌∷◌ "[" (append t (String.◌∷◌ "]" rest))

abbrev pub print : List Form → String
print [] = ""
print (f ∷ fs) = print_form f (print fs)

abbrev pub segment_of : Form → Segment
segment_of (dotted k) = key_segment k
segment_of (quoted k) = key_segment k
segment_of (indexed t n) = index_segment n

-- The first character opens no quoted key.
abbrev pub opens_no_quote : String → Bool
opens_no_quote String.[] = false
opens_no_quote (String.◌∷◌ c s) = not (eqb (code c) 34 || eqb (code c) 39)

abbrev pub is_filled : String → Bool
is_filled String.[] = false
is_filled (String.◌∷◌ c s) = true

-- A dotted key has a character and neither '.' nor '[', a quoted key no '"'. The text of an index has
-- no ']', opens no quoted key, and is one that Atoi reads as the index.
abbrev pub IsWritable : Form → Type 0
IsWritable (dotted k) = (is_filled k ≡ true) × (every is_plain k ≡ true)
IsWritable (quoted k) = every (λ c. not (eqb c 34)) k ≡ true
IsWritable (indexed t n) =
    (every (λ c. not (eqb c 93)) t ≡ true)
    × (opens_no_quote t ≡ true)
    × (atoi (trim_space t) ≡ some (pos n))

read_index_lem :
    (t : String) (n : ℕ)
    → atoi (trim_space t) ≡ some (pos n)
    → (go : ℕ → Parsed) → read_index t go ≡ go n
read_index_lem t n h go = rw (h, read_index) refl

module _ (fs : List Form) where
  -- What the scan does from here, whatever stands before.
  Reads : Type 0
  Reads =
      (fuel : ℕ) (segments : List Segment) (key : String)
      → size (print fs) ≤ fuel
      → scan fuel (print fs) segments key ≡ ok (flush_key key segments ++ map segment_of fs)

  reads-dotted :
      (k : String)
      → IsWritable (dotted k)
      → Reads
      → (fuel : ℕ) (segments : List Segment) (key : String) → size (print (dotted k ∷ fs)) ≤ fuel
      → scan fuel (print (dotted k ∷ fs)) segments key
        ≡ ok (flush_key key segments ++ map segment_of (dotted k ∷ fs))
  unfolding scan Reads
  reads-dotted k w ih zero segments key le = let bad : ⊥ = omega arith in elim bad [ ]
  reads-dotted String.[] (filled, plain) ih (suc fuel) segments key le = cc
  reads-dotted (String.◌∷◌ c k) (filled, plain) ih (suc fuel) segments key le =
      let whole = String.◌∷◌ c k in
      let left = fuel - size whole in
      let enough : size (print fs) ≤ left = omega (arith, size-append whole (print fs)) in
      let split : fuel ≡ one_each whole left =
        omega (arith, one_each_lem whole left, size-append whole (print fs)) in
      ap (λ f. scan f (append whole (print fs)) (flush_key key segments) "") split
      ∙ scan-plain whole left (print fs) (flush_key key segments) "" plain
      ∙ ih left (flush_key key segments) whole enough
      ∙ ap ok (append_assoc (flush_key key segments) (key_segment whole ∷ []) (map segment_of fs))

  reads-quoted :
      (k : String)
      → IsWritable (quoted k)
      → Reads
      → (fuel : ℕ) (segments : List Segment) (key : String) → size (print (quoted k ∷ fs)) ≤ fuel
      → scan fuel (print (quoted k ∷ fs)) segments key
        ≡ ok (flush_key key segments ++ map segment_of (quoted k ∷ fs))
  unfolding scan Reads
  reads-quoted k w ih zero segments key le = let bad : ⊥ = omega arith in elim bad [ ]
  reads-quoted k w ih (suc fuel) segments key le =
      let enough : size (print fs) ≤ fuel =
        omega (arith, size-append k (String.◌∷◌ "\"" (String.◌∷◌ "]" (print fs)))) in
      rw (cut_at 34 k "\"" (String.◌∷◌ "]" (print fs)) w refl) (
        ih fuel (flush_key key segments ++ key_segment k ∷ []) "" enough
        ∙ ap ok (append_assoc (flush_key key segments) (key_segment k ∷ []) (map segment_of fs)))

  reads-indexed :
      (t : String) (n : ℕ)
      → IsWritable (indexed t n)
      → Reads
      → (fuel : ℕ) (segments : List Segment) (key : String) → size (print (indexed t n ∷ fs)) ≤ fuel
      → scan fuel (print (indexed t n ∷ fs)) segments key
        ≡ ok (flush_key key segments ++ map segment_of (indexed t n ∷ fs))
  unfolding scan Reads
  reads-indexed t n w ih zero segments key le = let bad : ⊥ = omega arith in elim bad [ ]
  reads-indexed String.[] n (closed, opens, is_index) ih (suc fuel) segments key le = cc
  reads-indexed (String.◌∷◌ c t) n (closed, opens, is_index) ih (suc fuel) segments key le =
      let text = String.◌∷◌ c t in
      let enough : size (print fs) ≤ fuel =
        omega (arith, size-append text (String.◌∷◌ "]" (print fs))) in
      rw
        (
          not-true (eqb (code c) 34 || eqb (code c) 39) opens,
          cut_at 93 text "]" (print fs) closed refl,
        )
        (read_index_lem text n is_index
            (λ m. scan fuel (print fs) (flush_key key segments ++ index_segment m ∷ []) "")
          ∙ ih fuel (flush_key key segments ++ index_segment n ∷ []) "" enough
          ∙ ap ok
              (append_assoc (flush_key key segments) (index_segment n ∷ []) (map segment_of fs)))

reads : (fs : List Form) → All IsWritable fs → Reads fs
unfolding scan Reads
reads [] w = λ fuel segments key le. ap ok (sym (append-nil (flush_key key segments)))
reads (dotted k ∷ fs) w = reads-dotted fs k w.0 (reads fs w.1)
reads (quoted k ∷ fs) w = reads-quoted fs k w.0 (reads fs w.1)
reads (indexed t n ∷ fs) w = reads-indexed fs t n w.0 (reads fs w.1)

-- A path that is written from segments, each in one of the ways to write it, is parsed into these
-- segments; the loop's fuel, one round for each character, is enough.
pub parse-print : (fs : List Form) → All IsWritable fs → parse (print fs) ≡ ok (map segment_of fs)
unfolding parse Reads
parse-print fs w = reads fs w (size (print fs)) [] "" (omega arith)

-- A text of two characters is neither of the texts that stand for the whole document.
not_whole : (s : String) → 2 ≤ size s → (s == "" || s == ".") ≡ false
not_whole s le =
    let not_empty : (s == "") ≡ false =
      ≢→== s "" (λ e. let z : size s ≡ 0 = ap size e in omega arith) in
    let not_dot : (s == ".") ≡ false =
      ≢→== s "." (λ e. let o : size s ≡ 1 = ap size e in omega arith) in
    rw (not_empty, not_dot) refl

filled-size : (k : String) → is_filled k ≡ true → 1 ≤ size k
filled-size String.[] h = cc
filled-size (String.◌∷◌ c k) h = omega arith

size-print_form : (f : Form) (rest : String) → IsWritable f → 2 ≤ size (print_form f rest)
size-print_form (dotted k) rest w = omega (arith, size-append k rest, filled-size k w.0)
size-print_form (quoted k) rest w = omega arith
size-print_form (indexed t n) rest w = omega (arith, size-append t (String.◌∷◌ "]" rest))

-- Get, on a path that is written from one segment or more, each in one of the ways to write it,
-- follows the segments into the document.
pub get-print :
    (doc : Value) (f : Form) (fs : List Form)
    → All IsWritable (f ∷ fs)
    → get doc (print (f ∷ fs)) ≡ answer (follow (map segment_of (f ∷ fs)) doc)
unfolding get get_parsed
get-print doc f fs w =
    rw (not_whole (print (f ∷ fs)) (size-print_form f (print fs) w.0), parse-print (f ∷ fs) w) refl
