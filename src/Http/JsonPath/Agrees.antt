-- ===== src/Http/JsonPath/Agrees.antt =====
-- internal/matchers/http.go against internal/path/path.go: the two readers of paths, on what both can
-- write.
use vigie.Prelude.{
  String, ◌≡◌, refl, ap, ◌∙◌, subst, ℕ, zero, suc, ◌≤◌, ◌<◌, false, Option, none, some, List, [],
  ◌∷◌, map, ◌==◌, leb, arith, Option-cases, inl, inr, All, ≢→==,
}
use vigie.Prelude.Texts.{size, drop, has_prefix}
use vigie.Prelude.Int.{pos, negsuc, leb_int, is_negative}
use vigie.Value.{Value, null, bool, int, float, str, slice, object, Items, nil, cons}
use vigie.Path.{nth, step, step_at, follow}
use vigie.Path.Printed.{Form, dotted, quoted, indexed, segment_of}
use vigie.Http.JsonPath.{
  Walk, found, not_found, split_segment, items_length, into, enter_slice, enter, traverse,
  eval_json_path, parse_array_index,
}
use vigie.Http.JsonPath.Ends.{split_segment-size}
use vigie.Http.JsonPath.Written.{write, IsCommon, text_of, split-write, write-filled}

-- One segment.
nth-within : (n : ℕ) (items : Items) (v : Value) → nth n items ≡ some v → n < items_length items
unfolding nth
nth-within n nil v h = cc
nth-within zero (cons w items) v h = omega arith
nth-within (suc n) (cons w items) v h = omega (arith, nth-within n items v h)

enter_slice_index :
    (t : String) (n : ℕ) (items : Items) (v : Value)
    → parse_array_index t ≡ some (pos n)
    → nth n items ≡ some v
    → enter_slice t items ≡ into v
unfolding enter_slice leb_int is_negative
enter_slice_index t n items v e h =
    let bound = nth-within n items v h in
    let near : leb (items_length items) n ≡ false = ground arith in
    rw (enter_slice, e, near, h) refl

enter_index :
    (t : String) (n : ℕ) (doc v : Value)
    → parse_array_index t ≡ some (pos n)
    → step_at (pos n) "" doc ≡ some v
    → enter t doc ≡ into v
unfolding step_at enter
enter_index t n (slice items) v e h = enter_slice_index t n items v e h
enter_index t n null v e h = cc
enter_index t n (bool b) v e h = cc
enter_index t n (int m) v e h = cc
enter_index t n (float m) v e h = cc
enter_index t n (str s) v e h = cc
enter_index t n (object m) v e h = cc

enter_key : (k : String) (doc v : Value) → step_at (negsuc 0) k doc ≡ some v → enter k doc ≡ into v
unfolding step_at enter
enter_key k (object m) v h = rw h refl
enter_key k null v h = cc
enter_key k (bool b) v h = cc
enter_key k (int m) v h = cc
enter_key k (float m) v h = cc
enter_key k (str s) v h = cc
enter_key k (slice items) v h = cc

enter-step :
    (f : Form) (doc v : Value)
    → IsCommon f
    → step (segment_of f) doc ≡ some v
    → enter (text_of f) doc ≡ into v
unfolding step
enter-step (dotted k) doc v h e = enter_key k doc v e
enter-step (quoted k) doc v h e = cc
enter-step (indexed t n) doc v (h, p) e = enter_index t n doc v p e

traverse_into :
    (fuel : ℕ) (path segment rest : String) (doc v : Value)
    → 0 < size path
    → split_segment path ≡ (segment, rest)
    → enter segment doc ≡ into v
    → traverse (suc fuel) path doc ≡ traverse fuel rest v
unfolding traverse
traverse_into fuel String.[] segment rest doc v z s e = ground arith
traverse_into fuel (String.◌∷◌ c t) segment rest doc v z s e =
    let seg : (split_segment (String.◌∷◌ c t)).0 ≡ segment = ap (λ p. p.0) s in
    rw (traverse, seg, e) (ap (λ p. traverse fuel p.1 v) s)

abbrev no_value : Option Value
no_value = none

abbrev from_option : Option Value → Walk
from_option none = not_found
from_option (some v) = found v

traverse-write :
    (fs : List Form) (fuel : ℕ) (doc v : Value)
    → All IsCommon fs
    → size (write fs) ≤ fuel
    → follow (map segment_of fs) doc ≡ some v
    → traverse fuel (write fs) doc ≡ found v
unfolding follow traverse
traverse-write [] fuel doc v h b e = ap from_option e
traverse-write (f ∷ fs) zero doc v (h, hs) b e = let filled = write-filled f fs h in ground arith
traverse-write (f ∷ fs) (suc fuel) doc v (h, hs) b e =
    elim (Option-cases (step (segment_of f) doc)) [
      | inl none_here ↦ let bad : no_value ≡ some v = rw (none_here, follow) at e in cc
      | inr (w, on) ↦
          let filled = write-filled f fs h in
          let split = split-write f fs h hs in
          let shorter =
            subst (λ p. size p.1 < size (write (f ∷ fs))) split
              (split_segment-size (write (f ∷ fs)) filled) in
          traverse_into fuel (write (f ∷ fs)) (text_of f) (write fs) doc w filled split
            (enter-step f doc w h on)
          ∙ traverse-write fs fuel w v hs (omega arith) (rw (on, follow) at e)
    ]

-- Where both readers can write a path of keys and indices, and the first is a key, a value that
-- path.Get finds at the path is the value that the jsonPath expression `$.` with that path finds.
pub eval_json_path-write :
    (k : String) (fs : List Form) (doc v : Value)
    → All IsCommon (dotted k ∷ fs)
    → follow (map segment_of (dotted k ∷ fs)) doc ≡ some v
    → eval_json_path (String.◌∷◌ "$" (String.◌∷◌ "." (write (dotted k ∷ fs)))) doc ≡ found v
unfolding eval_json_path has_prefix drop
eval_json_path-write k fs doc v h e =
    let path = write (dotted k ∷ fs) in
    let expr = String.◌∷◌ "$" (String.◌∷◌ "." path) in
    let other : (expr == "$") ≡ false =
      ≢→== expr "$" (λ p. let sizes : size expr ≡ size "$" = ap size p in omega arith) in
    rw (eval_json_path, other) (traverse-write (dotted k ∷ fs) (size path) doc v h (omega arith) e)
