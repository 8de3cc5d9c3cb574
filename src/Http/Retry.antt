-- ===== src/Http/Retry.antt =====
-- internal/matchers/http.go: evalHTTP, with its attempts. The counter of the attempts is not near the
-- largest int.
pub mod Attempts
pub mod Runs
pub mod Cleanup
use vigie.Prelude.{
  String, ℕ, zero, suc, Bool, true, false, ◌&&◌, ◌||◌, not, Option, none, some, List, [], ◌∷◌, ◌++◌,
  map, ◌==◌, if◌then◌else◌,
}
use vigie.Prelude.Int.{ℤ, pos, negsuc}
use vigie.Value.{Value, null, bool, int, float, str, slice, object, Fields, end, field}
use vigie.Http.Types.{
  Duration, HttpRetries, HttpAssert, HttpError, Outcome, ok, err, Message, Result, Reply, got,
  refused, Response, Request, empty, tier_mismatch, rest_config_required, resolve_target,
  invalid_url_path, invalid_setting, request_error, until_error, until_not_satisfied,
  invalid_interval, marshal_body, create_request, execute_request, read_body, cel_error,
  until_not_bool, ◌>>=◌, ◌>>◌, wrap, answer,
}
use vigie.Http.Target.{Remote, Event, opened, closed, slept, sent, Resolved, parse_http_timeout}
use vigie.Http.Routes.{resolve_http_target_url}
use vigie.Http.Check.{Library, Checked, passed, rejected, check_http_assertions, first_of}
use vigie.Http.Exchange.{
  Network, Env, Retries, Exchange, do_http_request, eval_retry_until_cel, parse_http_retries,
}

pub record EvalContext : Type 0 where
  pub in_apply_tier : Bool
  -- the Host of the RESTConfig
  pub rest_config : Option String
  pub namespace : String

-- How evalHTTP ends.
pub data Verdict : Type 0 where
  returned : Result → Verdict
  panicked : Verdict
  -- the model's own: it does not come up
  out_of_fuel : Verdict

-- What an attempt leads to: evalHTTP ends, or goes on with this Result as the last.
pub data Turn : Type 0 where
  stop : Verdict → Turn
  again : Result → Turn

abbrev pub failing : Message → Result
failing message = record { pass = false; message = message }

abbrev pub passing : Result
passing = record { pass = true; message = empty }

abbrev pub turn_of : Checked → Turn
turn_of passed = stop (returned passing)
turn_of (rejected message) = again (failing message)
turn_of Checked.panicked = stop panicked
turn_of Checked.out_of_fuel = stop out_of_fuel

abbrev pub until_turn : (expr : String) (status : ℤ) → Outcome Bool → (next : Turn) → Turn
until_turn expr status (err e) next = stop (returned (failing (until_error e)))
until_turn expr status (ok true) next = next
until_turn expr status (ok false) next = again (failing (until_not_satisfied expr status))

unfoldable pub answer_turn : Env → HttpAssert → (until : String) → Outcome Response → Turn
unfolding check_http_assertions eval_retry_until_cel
answer_turn env spec until (err e) = again (failing (request_error e))
answer_turn env spec until (ok resp) =
    let checked = turn_of (check_http_assertions env.library spec.assert resp) in
    if until == ""
    then checked
    else until_turn until resp.status (eval_retry_until_cel env.network until resp) checked

-- time.Sleep, from the second attempt on.
abbrev pub pause : (attempt : ℕ) → Duration → List Event
pause zero interval = []
pause (suc attempt) interval = slept interval ∷ []

-- An attempt with its events, and where it does not end the loop, what comes after it.
abbrev pub after_turn :
    List Event → Turn → (next : Result → List Event × Verdict) → List Event × Verdict
after_turn events (stop verdict) next = (events, verdict)
after_turn events (again result) next = let rest = next result in (events ++ rest.0, rest.1)

-- The loop, with the attempts that are left and the last Result.
unfoldable pub attempts :
    (turn : ℕ → List Event × Turn) (interval : Duration) (left attempt : ℕ) (last : Result)
    → List Event × Verdict
attempts turn interval zero attempt last = ([], returned last)
attempts turn interval (suc left) attempt last =
    after_turn (pause attempt interval ++ (turn attempt).0) (turn attempt).1
      (λ result. attempts turn interval left (suc attempt) result)

-- attempt <= retryCount, from 0
unfoldable pub allowed : (retry_count : ℤ) → ℕ
allowed (pos n) = suc n
allowed (negsuc n) = 0

-- One round of the loop.
unfoldable pub http_turn :
    Env
    → (url : String) → HttpAssert
    → Duration
    → (until : String) (attempt : ℕ) → List Event × Turn
unfolding do_http_request answer_turn
http_turn env url spec timeout until attempt =
    let exchange = do_http_request env attempt url spec timeout in
    (exchange.0, answer_turn env spec until exchange.1)

abbrev pub return_message : Message → List Event × Verdict
return_message message = ([], returned (failing message))

abbrev pub with_retries :
    Env → (url : String) → HttpAssert → Duration → Outcome Retries → List Event × Verdict
unfolding http_turn attempts allowed
with_retries env url spec timeout (err e) = return_message (invalid_setting e)
with_retries env url spec timeout (ok (count, interval, until)) =
    attempts (http_turn env url spec timeout until) interval (allowed count) 0 (failing empty)

abbrev pub with_timeout :
    Env → (url : String) → HttpAssert → Outcome Duration → List Event × Verdict
unfolding parse_http_retries with_retries
with_timeout env url spec (err e) = return_message (invalid_setting e)
with_timeout env url spec (ok timeout) =
    with_retries env url spec timeout (parse_http_retries env.remote spec.retries)

abbrev pub with_url : Env → HttpAssert → Reply String → List Event × Verdict
unfolding parse_http_timeout with_timeout
with_url env spec (refused text) = return_message (invalid_url_path text)
with_url env spec (got url) = with_timeout env url spec (parse_http_timeout env.remote spec.timeout)

abbrev pub deferred : (cleanup : Bool) → List Event
deferred true = closed ∷ []
deferred false = []

-- What evalHTTP does once the target is resolved, and the deferred cleanup.
unfoldable pub run_resolved : Env → Resolved → List Event × Verdict
unfolding with_url
run_resolved env resolved =
    let run = with_url env resolved.spec (env.network.join_path resolved.url resolved.spec.path) in
    (run.0 ++ deferred resolved.cleanup, run.1)

abbrev pub run_target : Env → List Event × Outcome Resolved → List Event × Verdict
unfolding run_resolved
run_target env (events, err e) = (events, returned (failing (resolve_target e)))
run_target env (events, ok resolved) =
    let run = run_resolved env resolved in (events ++ run.0, run.1)

abbrev pub run_config :
    Env → HttpAssert → (namespace : String) → Option String → List Event × Verdict
unfolding resolve_http_target_url run_target
run_config env spec namespace none = return_message rest_config_required
run_config env spec namespace (some host) =
    run_target env (resolve_http_target_url env.remote host spec namespace)

-- The events in their order, and how it ends.
unfoldable pub eval_http : Env → HttpAssert → EvalContext → List Event × Verdict
unfolding run_config
eval_http env spec ctx =
    if ctx.in_apply_tier
    then run_config env spec ctx.namespace ctx.rest_config
    else return_message tier_mismatch
