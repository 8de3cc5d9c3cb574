-- ===== src/Deps/Secret/Chain.antt =====
-- internal/deps/source_secret.go: the chain of the fallbacks of a key.
use vigie.Prelude.{
  ℕ, zero, suc, String, ◌≡◌, ◌≢◌, refl, sym, ap, ◌∙◌, false, Option, List, [], ◌∷◌, ◌++◌, length,
  All, append-nil,
}
use vigie.Prelude.Texts.{append}
use vigie.Dsl.Types.{ShellCommand, SecretKeySpec, spec, spec_with_fallback}
use vigie.Deps.Secret.{
  Machine, Probe, Probed, Answer, produced, nothing, failed, ValueError, in_fallback,
  no_source_left, resolve_one_source, resolve_secret_value, alone, or_fallback, of_fallback,
}

-- One key of a chain, without its fallback.
pub record Link : Type 0 where
  pub env : String
  pub file : String
  pub generate : Option ShellCommand

-- The keys of a chain, from the outermost, and how many stand below it.
abbrev pub links : SecretKeySpec → List Link
links (spec key env file generate) = record { env = env; file = file; generate = generate } ∷ []
links (spec_with_fallback key env file generate fallback) =
    record { env = env; file = file; generate = generate } ∷ links fallback

abbrev pub fallback_count : SecretKeySpec → ℕ
fallback_count (spec key env file generate) = 0
fallback_count (spec_with_fallback key env file generate fallback) = suc (fallback_count fallback)

-- An error and a source of the n-th key below.
abbrev pub nested : ℕ → ValueError → ValueError
nested zero e = e
nested (suc n) e = in_fallback (nested n e)

abbrev pub named : ℕ → String → String
named zero s = s
named (suc n) s = append "fallback:" (named n s)

abbrev pub seen_from : ℕ → Answer → Answer
seen_from n (produced value source) = produced value (named n source)
seen_from n nothing = nothing
seen_from n (failed e) = failed (nested n e)

seen_from-zero : (a : Answer) → a ≡ seen_from 0 a
seen_from-zero (produced value source) = refl
seen_from-zero nothing = refl
seen_from-zero (failed e) = refl

seen_from-suc :
    (n : ℕ) (a : Answer) → a ≢ nothing → of_fallback (seen_from n a) ≡ seen_from (suc n) a
seen_from-suc n (produced value source) h = refl
seen_from-suc n nothing h = absurd (h refl)
seen_from-suc n (failed e) h = refl

module _ (m : Machine) (base : String) where
  abbrev pub at : Link → Probed
  at l = resolve_one_source m base l.env l.file l.generate

  -- What is read for a list of keys.
  abbrev pub reads : List Link → List Probe
  reads [] = []
  reads (l ∷ ls) = (at l).probes ++ reads ls

  -- The first key of the chain that gives a value or an error gives the result, and nothing is read for
  -- those behind it; or all give nothing.
  pub data Settled (k : SecretKeySpec) (r : Probed) : Type 0 where
    answered :
        (before after : List Link) (l : Link)
        → links k ≡ before ++ l ∷ after
        → All (λ b. (at b).answer ≡ nothing) before
        → (at l).answer ≢ nothing
        → r.probes ≡ reads (before ++ l ∷ [])
        → r.answer ≡ seen_from (length before) (at l).answer
        → Settled k r
    ran_out :
        All (λ b. (at b).answer ≡ nothing) (links k)
        → r.probes ≡ reads (links k)
        → r.answer ≡ failed (nested (fallback_count k) (no_source_left false))
        → Settled k r

  here :
      (k : SecretKeySpec) (l : Link) (after : List Link) (r : Probed)
      → links k ≡ l ∷ after
      → (at l).answer ≢ nothing
      → r.probes ≡ (at l).probes
      → r.answer ≡ (at l).answer
      → Settled k r
  here k l after r parts some_answer reading same =
      answered [] after l parts tt some_answer (reading ∙ sym (append-nil _))
        (same ∙ seen_from-zero _)

  alone-Settled :
      (k : SecretKeySpec) (l : Link) (a : Answer)
      → links k ≡ l ∷ []
      → fallback_count k ≡ 0
      → (at l).answer ≡ a
      → Settled k (record { probes = (at l).probes; answer = alone a })
  alone-Settled k l (produced value source) parts none_below e =
      here k l [] _ parts (λ n. cc) refl (sym e)
  alone-Settled k l (failed x) parts none_below e = here k l [] _ parts (λ n. cc) refl (sym e)
  alone-Settled k l nothing parts none_below e =
      ran_out (rw parts (e, tt)) (rw parts (sym (append-nil _))) (rw none_below refl)

  behind :
      (key env file : String) (generate : Option ShellCommand) (k : SecretKeySpec) (rest : Probed)
      → let l : Link = record { env = env; file = file; generate = generate } in
        (at l).answer ≡ nothing
        → Settled k rest
        → Settled
            (spec_with_fallback key env file generate k)
            (or_fallback (at l).probes nothing rest)
  behind key env file generate k rest e s = elim s [
    | answered before after b parts empty some_answer reading same ↦
        let l : Link = record { env = env; file = file; generate = generate } in
        answered (l ∷ before) after b (ap (λ ls. l ∷ ls) parts) (e, empty) some_answer
          (ap (λ ps. (at l).probes ++ ps) reading)
          (ap of_fallback same ∙ seen_from-suc (length before) _ some_answer)
    | ran_out empty reading same ↦
        let l : Link = record { env = env; file = file; generate = generate } in
        ran_out (e, empty) (ap (λ ps. (at l).probes ++ ps) reading) (ap of_fallback same)
  ]

  fallback-Settled :
      (key env file : String) (generate : Option ShellCommand) (k : SecretKeySpec) (rest : Probed)
      (a : Answer)
      → let l : Link = record { env = env; file = file; generate = generate } in
        (at l).answer ≡ a
        → Settled k rest
        → Settled (spec_with_fallback key env file generate k) (or_fallback (at l).probes a rest)
  fallback-Settled key env file generate k rest (produced value source) e s =
      here _ _ (links k) _ refl (λ n. cc) refl (sym e)
  fallback-Settled key env file generate k rest (failed x) e s =
      here _ _ (links k) _ refl (λ n. cc) refl (sym e)
  fallback-Settled key env file generate k rest nothing e s =
      behind key env file generate k rest e s

  -- The value of a key is that of the first one in its chain of fallbacks that has one, where none before
  -- it fails; its source is named with one `fallback:` for each key before it. An error of a key on the way
  -- ends the chain. Where no key has a value the result is an error. Nothing is read from the environment,
  -- the disk or a command for the keys behind the one that ends the chain.
  pub resolve_secret_value-Settled : (k : SecretKeySpec) → Settled k (resolve_secret_value m base k)
  unfolding resolve_secret_value
  resolve_secret_value-Settled (spec key env file generate) =
      alone-Settled _ (record { env = env; file = file; generate = generate }) _ refl refl refl
  resolve_secret_value-Settled (spec_with_fallback key env file generate k) =
      fallback-Settled key env file generate k _ _ refl (resolve_secret_value-Settled k)
