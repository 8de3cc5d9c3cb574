-- ===== src/Http/Retry/Runs.antt =====
-- internal/matchers/http.go: what a run of evalHTTP sends, and what a Result that passes rests on.
use vigie.Prelude.{
  String, ℕ, zero, suc, ◌+◌, ◌≤◌, ◌<◌, ◌≡◌, inl, inr, refl, sym, Bool, true, false, Option, none,
  some, List, [], ◌∷◌, ◌++◌, All, All-append, arith, Bool-cases, ◌==◌, subst, ◌∙◌,
}
use vigie.Prelude.Int.{ℤ}
use vigie.Http.Types.{
  Duration, Result, Request, Response, HttpAssert, HttpAssertBlock, HttpRetries, Outcome, ok, err,
  Reply, got, refused, Message, empty, Ensures, Ensures->>=,
}
use vigie.Http.Target.{Event, sent, parse_http_timeout}
use vigie.Http.Check.{Checked, passed, rejected, check_http_assertions}
use vigie.Http.Exchange.{
  Exchange, response_of, answered, not_answered, not_read, Env, Retries, parse_http_retries,
  build_request, send_request, do_http_request, eval_retry_until_cel,
}
use vigie.Http.Retry.{
  Verdict, returned, Turn, stop, again, pause, after_turn, attempts, failing, turn_of, until_turn,
  answer_turn, http_turn, allowed, return_message, with_retries, with_timeout, with_url,
}
use vigie.Http.Retry.Attempts.{total, total-append, sent_one, IsQuiet, pause-IsQuiet, pause-sent}

-- The attempts that a policy allows: one, and as many more as the count; none where it is negative.
abbrev pub allowed_by : Option HttpRetries → ℕ
unfolding allowed
allowed_by none = 1
allowed_by (some retries) = allowed retries.count

-- One of the attempts was answered, and the answer meets the conditions.
abbrev pub IsAnswered : Env → (bound : ℕ) → Option HttpAssertBlock → Type 0
IsAnswered env bound block =
    (k : ℕ) × (request : Request) × (resp : Response) × (k < bound)
    × (env.network.do_request k request ≡ answered resp)
    × (check_http_assertions env.library block resp ≡ passed)

abbrev pub IsSound : Env → (bound : ℕ) → Option HttpAssertBlock → Verdict → Type 0
IsSound env bound block (returned r) = r.pass ≡ true → IsAnswered env bound block
IsSound env bound block v = Unit

abbrev IsSoundTurn : Env → (bound : ℕ) → Option HttpAssertBlock → Turn → Type 0
IsSoundTurn env bound block (stop v) = IsSound env bound block v
IsSoundTurn env bound block (again r) = r.pass ≡ false

pub record IsRun (env : Env) (bound : ℕ) (block : Option HttpAssertBlock)
    (run : List Event × Verdict) : Type 0 where
  pub quiet : All IsQuiet run.0
  pub few : total sent_one run.0 ≤ bound
  pub sound : IsSound env bound block run.1

record IsTurn (env : Env) (bound : ℕ) (block : Option HttpAssertBlock) (turn : List Event × Turn)
    : Type 0 where
  quiet : All IsQuiet turn.0
  few : total sent_one turn.0 ≤ 1
  sound : IsSoundTurn env bound block turn.1

turn_of-IsSoundTurn :
    (env : Env) (bound k : ℕ) (block : Option HttpAssertBlock) (request : Request) (resp : Response)
    (checked : Checked)
    → k < bound
    → env.network.do_request k request ≡ answered resp
    → check_http_assertions env.library block resp ≡ checked
    → IsSoundTurn env bound block (turn_of checked)
turn_of-IsSoundTurn env bound k block request resp passed b a e = λ h. (k, request, resp, b, a, e)
turn_of-IsSoundTurn env bound k block request resp (rejected m) b a e = refl
turn_of-IsSoundTurn env bound k block request resp Checked.panicked b a e = tt
turn_of-IsSoundTurn env bound k block request resp Checked.out_of_fuel b a e = tt

until_turn-IsSoundTurn :
    (env : Env) (bound : ℕ) (block : Option HttpAssertBlock) (expr : String) (status : ℤ)
    (done : Outcome Bool) (next : Turn)
    → IsSoundTurn env bound block next
    → IsSoundTurn env bound block (until_turn expr status done next)
until_turn-IsSoundTurn env bound block expr status (err e) next h = λ p. cc
until_turn-IsSoundTurn env bound block expr status (ok true) next h = h
until_turn-IsSoundTurn env bound block expr status (ok false) next h = refl

answer_turn-IsSoundTurn :
    (env : Env) (bound k : ℕ) (spec : HttpAssert) (until : String) (request : Request)
    (resp : Response)
    → k < bound
    → env.network.do_request k request ≡ answered resp
    → IsSoundTurn env bound spec.assert (answer_turn env spec until (ok resp))
unfolding answer_turn
answer_turn-IsSoundTurn env bound k spec until request resp b a =
    let checked = check_http_assertions env.library spec.assert resp in
    let h = turn_of-IsSoundTurn env bound k spec.assert request resp checked b a refl in
    elim (Bool-cases (until == "")) [
      | inl e ↦ rw e h
      | inr e ↦ rw e (
          until_turn-IsSoundTurn env bound spec.assert until resp.status
            (eval_retry_until_cel env.network until resp) (turn_of checked) h)
    ]

-- The exchange of an attempt, whatever it is.
exchange-IsTurn :
    (env : Env) (bound k : ℕ) (spec : HttpAssert) (until : String) (request : Request)
    (exchange : Exchange)
    → k < bound
    → env.network.do_request k request ≡ exchange
    → IsTurn env bound spec.assert
        (sent request ∷ [], answer_turn env spec until (response_of exchange))
unfolding answer_turn
exchange-IsTurn env bound k spec until request (answered resp) b a = record {
  quiet = (tt, tt);
  few = omega arith;
  sound = answer_turn-IsSoundTurn env bound k spec until request resp b a;
}
exchange-IsTurn env bound k spec until request (not_answered text) b a = record {
  quiet = (tt, tt);
  few = omega arith;
  sound = refl;
}
exchange-IsTurn env bound k spec until request (not_read text) b a = record {
  quiet = (tt, tt);
  few = omega arith;
  sound = refl;
}

built-IsTurn :
    (env : Env) (bound k : ℕ) (spec : HttpAssert) (until : String) (built : Outcome Request)
    → k < bound
    → let exchange = send_request env.network k built in
      IsTurn env bound spec.assert (exchange.0, answer_turn env spec until exchange.1)
unfolding answer_turn
built-IsTurn env bound k spec until (err e) b = record {
  quiet = tt;
  few = omega arith;
  sound = refl;
}
built-IsTurn env bound k spec until (ok request) b =
    exchange-IsTurn env bound k spec until request (env.network.do_request k request) b refl

http_turn-IsTurn :
    (env : Env) (bound : ℕ) (url : String) (spec : HttpAssert) (timeout : Duration) (until : String)
    (k : ℕ)
    → k < bound
    → IsTurn env bound spec.assert (http_turn env url spec timeout until k)
unfolding http_turn do_http_request
http_turn-IsTurn env bound url spec timeout until k b =
    built-IsTurn env bound k spec until (build_request env url spec timeout) b

-- An attempt and what comes after it.
after_turn-IsRun :
    (env : Env) (bound left : ℕ) (block : Option HttpAssertBlock) (before events : List Event)
    (turn : Turn) (next : Result → List Event × Verdict)
    → All IsQuiet before
    → total sent_one before ≡ 0
    → IsTurn env bound block (events, turn)
    → ((r : Result)
        → r.pass ≡ false
        → (All IsQuiet (next r).0)
          × (total sent_one (next r).0 ≤ left)
          × IsSound env bound block (next r).1)
    → let run = after_turn (before ++ events) turn next in
      (All IsQuiet run.0) × (total sent_one run.0 ≤ suc left) × IsSound env bound block run.1
after_turn-IsRun env bound left block before events (stop v) next q z t h = (
  All-append IsQuiet before events q t.quiet,
  (let few = t.few in omega (arith, total-append sent_one before events)),
  t.sound,
)
after_turn-IsRun env bound left block before events (again r) next q z t h =
    let (quiet, count, sound) = h r t.sound in
    (
      All-append IsQuiet (before ++ events) (next r).0 (All-append IsQuiet before events q t.quiet)
          quiet,
      (let few = t.few in
          omega (
            arith,
            total-append sent_one before events,
            total-append sent_one (before ++ events) (next r).0,
          )),
      sound,
    )

attempts-IsRun :
    (env : Env) (bound : ℕ) (block : Option HttpAssertBlock) (turn : ℕ → List Event × Turn)
    (interval : Duration) (left k : ℕ) (last : Result)
    → ((j : ℕ) → j < bound → IsTurn env bound block (turn j))
    → k + left ≤ bound
    → last.pass ≡ false
    → let run = attempts turn interval left k last in
      (All IsQuiet run.0) × (total sent_one run.0 ≤ left) × IsSound env bound block run.1
unfolding attempts
attempts-IsRun env bound block turn interval zero k last h b f =
    (tt, omega arith, λ p. let bad : true ≡ false = sym p ∙ f in cc)
attempts-IsRun env bound block turn interval (suc left) k last h b f =
    after_turn-IsRun env bound left block (pause k interval) (turn k).0 (turn k).1 _
      (pause-IsQuiet k interval) (pause-sent k interval) (h k (omega arith))
      (λ r g. attempts-IsRun env bound block turn interval left (suc k) r h (omega arith) g)

nothing-IsRun :
    (env : Env) (bound : ℕ) (block : Option HttpAssertBlock) (m : Message)
    → IsRun env bound block (return_message m)
nothing-IsRun env bound block m = record { quiet = tt; few = omega arith; sound = λ p. cc }

with_retries-IsRun :
    (env : Env) (url : String) (spec : HttpAssert) (timeout : Duration) (retries : Outcome Retries)
    → Ensures (λ r. allowed r.0 ≡ allowed_by spec.retries) retries
    → IsRun env (allowed_by spec.retries) spec.assert (with_retries env url spec timeout retries)
unfolding with_retries
with_retries-IsRun env url spec timeout (err e) h = nothing-IsRun env _ spec.assert _
with_retries-IsRun env url spec timeout (ok (count, interval, until)) h =
    let turn = http_turn env url spec timeout until in
    let (quiet, few, sound) =
      attempts-IsRun env (allowed count) spec.assert turn interval (allowed count) 0 (failing empty)
        (http_turn-IsTurn env (allowed count) url spec timeout until) (omega arith) refl in
    let run : IsRun env (allowed count) spec.assert
        (attempts turn interval (allowed count) 0 (failing empty)) =
      record { quiet = quiet; few = few; sound = sound } in
    subst (λ n. IsRun env n spec.assert (attempts turn interval (allowed count) 0 (failing empty)))
      h run

parse_http_retries-allowed :
    (env : Env) (retries : Option HttpRetries)
    → Ensures (λ r. allowed r.0 ≡ allowed_by retries) (parse_http_retries env.remote retries)
unfolding parse_http_retries allowed
parse_http_retries-allowed env none = refl
parse_http_retries-allowed env (some retries) = Ensures->>= _ _ _ λ interval. refl

with_timeout-IsRun :
    (env : Env) (url : String) (spec : HttpAssert) (timeout : Outcome Duration)
    → IsRun env (allowed_by spec.retries) spec.assert (with_timeout env url spec timeout)
unfolding with_timeout with_retries
with_timeout-IsRun env url spec (err e) = nothing-IsRun env _ spec.assert _
with_timeout-IsRun env url spec (ok timeout) =
    with_retries-IsRun env url spec timeout (parse_http_retries env.remote spec.retries)
      (parse_http_retries-allowed env spec.retries)

-- What evalHTTP does once the target is resolved, but for the cleanup.
pub with_url-IsRun :
    (env : Env) (spec : HttpAssert) (url : Reply String)
    → IsRun env (allowed_by spec.retries) spec.assert (with_url env spec url)
unfolding with_url with_timeout with_retries
with_url-IsRun env spec (refused text) = nothing-IsRun env _ spec.assert _
with_url-IsRun env spec (got url) =
    with_timeout-IsRun env url spec (parse_http_timeout env.remote spec.timeout)
