-- ===== src/Http/Retry/Cleanup.antt =====
-- internal/matchers/http.go: evalHTTP as a whole, with the resolution of the target and the deferred
-- cleanup.
use vigie.Prelude.{
  String, ℕ, suc, ◌+◌, ◌≤◌, ◌≡◌, ◌⊎◌, inl, inr, refl, Bool, true, false, Option, none, some, List,
  [], ◌∷◌, ◌++◌, All, append-nil, arith, Bool-cases, subst,
}
use vigie.Prelude.Int.{pos, negsuc}
use vigie.Http.Types.{
  HttpRetries, Result, HttpAssert, Outcome, ok, err, Message, rest_config_required, tier_mismatch,
}
use vigie.Http.Target.{Event, opened, closed, Resolved}
use vigie.Http.Exchange.{Env}
use vigie.Http.Routes.{resolve_http_target_url}
use vigie.Http.Routes.Settled.{IsKept, IsSettled, resolve_http_target_url-IsSettled}
use vigie.Http.Retry.{
  EvalContext, Verdict, returned, with_url, return_message, deferred, run_resolved, run_target,
  run_config, eval_http, allowed,
}
use vigie.Http.Retry.Attempts.{total, total-append, sent_one, IsQuiet}
use vigie.Http.Retry.Runs.{allowed_by, IsAnswered, IsSound, IsRun, with_url-IsRun}

-- A port forward that is opened is closed, as the last thing.
abbrev pub IsBracketed : List Event → Type 0
IsBracketed events =
    All IsQuiet events
    ⊎ ((middle : List Event) × All IsQuiet middle × (events ≡ opened ∷ (middle ++ closed ∷ [])))

abbrev IsWhole : Env → HttpAssert → List Event × Verdict → Type 0
IsWhole env spec run =
    IsBracketed run.0
    × (total sent_one run.0 ≤ allowed_by spec.retries)
    × IsSound env (allowed_by spec.retries) spec.assert run.1

-- What holds of the assertion with another Host holds of the assertion.
kept-IsRun :
    (env : Env) (spec kept : HttpAssert) (run : List Event × Verdict)
    → IsKept spec kept
    → IsRun env (allowed_by kept.retries) kept.assert run
    → IsRun env (allowed_by spec.retries) spec.assert run
kept-IsRun env spec kept run k h =
    subst (λ block. IsRun env (allowed_by spec.retries) block run) k.assert
      (subst (λ retries. IsRun env (allowed_by retries) kept.assert run) k.retries h)

resolved-IsRun :
    (env : Env) (spec : HttpAssert) (resolved : Resolved)
    → IsKept spec resolved.spec
    → IsRun env
        (allowed_by spec.retries)
        spec.assert
        (with_url env resolved.spec (env.network.join_path resolved.url resolved.spec.path))
resolved-IsRun env spec resolved k =
    kept-IsRun env spec resolved.spec _ k (with_url-IsRun env resolved.spec _)

-- The events of the resolution, of the run and of the cleanup.
finished-IsWhole :
    (env : Env) (spec : HttpAssert) (events : List Event) (cleanup : Bool)
    (run : List Event × Verdict)
    → IsRun env (allowed_by spec.retries) spec.assert run
    → ((events ≡ []) × (cleanup ≡ false)) ⊎ ((events ≡ opened ∷ []) × (cleanup ≡ true))
    → IsWhole env spec (events ++ (run.0 ++ deferred cleanup), run.1)
finished-IsWhole env spec events cleanup run h (inl (none_open, no_cleanup)) =
    rw (none_open, no_cleanup, append-nil run.0) (inl h.quiet, h.few, h.sound)
finished-IsWhole env spec events cleanup run h (inr (one_open, to_do)) =
    let few = h.few in
    rw (one_open, to_do)
      (
        inr (run.0, h.quiet, refl),
        omega (arith, total-append sent_one run.0 (closed ∷ [])),
        h.sound,
      )

run_target-IsWhole :
    (env : Env) (spec : HttpAssert) (target : List Event × Outcome Resolved)
    → IsSettled spec target
    → IsWhole env spec (run_target env target)
unfolding run_resolved
run_target-IsWhole env spec (events, err e) (inl none_open) =
    rw none_open (inl tt, omega arith, λ p. cc)
run_target-IsWhole env spec (events, err e) (inr shut) =
    rw shut (inr ([], tt, refl), omega arith, λ p. cc)
run_target-IsWhole env spec (events, ok resolved) (kept, forward) =
    finished-IsWhole env spec events resolved.cleanup _ (resolved-IsRun env spec resolved kept)
      forward

nothing-IsWhole :
    (env : Env) (spec : HttpAssert) (m : Message) → IsWhole env spec (return_message m)
nothing-IsWhole env spec m = (inl tt, omega arith, λ p. cc)

run_config-IsWhole :
    (env : Env) (spec : HttpAssert) (ns : String) (config : Option String)
    → IsWhole env spec (run_config env spec ns config)
unfolding run_config
run_config-IsWhole env spec ns none = nothing-IsWhole env spec rest_config_required
run_config-IsWhole env spec ns (some host) =
    run_target-IsWhole env spec (resolve_http_target_url env.remote host spec ns)
      (resolve_http_target_url-IsSettled env.remote host spec ns)

eval_http-IsWhole :
    (env : Env) (spec : HttpAssert) (ctx : EvalContext) → IsWhole env spec (eval_http env spec ctx)
unfolding eval_http
eval_http-IsWhole env spec ctx = elim (Bool-cases ctx.in_apply_tier) [
  | inl e ↦ rw e (run_config-IsWhole env spec ctx.namespace ctx.rest_config)
  | inr e ↦ rw e (nothing-IsWhole env spec tier_mismatch)
]

-- Whatever the environment answers, a port forward that evalHTTP opens is closed, once, and after all
-- else that it does: all requests are sent while it is open. This holds of every way in which it ends, a
-- panic included.
pub eval_http-IsBracketed :
    (env : Env) (spec : HttpAssert) (ctx : EvalContext) → IsBracketed (eval_http env spec ctx).0
eval_http-IsBracketed env spec ctx = (eval_http-IsWhole env spec ctx).0

-- The requests that retries.count asks for at most: one, and as many again as the count; none where it is
-- negative, and one where there is no retries block.
abbrev pub IsWithin : Option HttpRetries → ℕ → Type 0
IsWithin none requests = requests ≤ 1
IsWithin (some retries) requests =
    ((n : ℕ) → retries.count ≡ pos n → requests ≤ n + 1)
    × ((n : ℕ) → retries.count ≡ negsuc n → requests ≡ 0)

bound-IsWithin :
    (retries : Option HttpRetries) (requests : ℕ)
    → requests ≤ allowed_by retries
    → IsWithin retries requests
unfolding allowed
bound-IsWithin none requests few = few
bound-IsWithin (some retries) requests few = (
  λ n is. let few' : requests ≤ suc n = rw is at few in omega (arith, few'),
  λ n is. let few' : requests ≤ 0 = rw is at few in omega (arith, few'),
)

-- evalHTTP sends at most one request more than retries.count: at most one where there is no retries block,
-- and none where the count is negative.
pub eval_http-IsWithin :
    (env : Env) (spec : HttpAssert) (ctx : EvalContext)
    → IsWithin spec.retries (total sent_one (eval_http env spec ctx).0)
eval_http-IsWithin env spec ctx = bound-IsWithin spec.retries _ (eval_http-IsWhole env spec ctx).1

-- Where evalHTTP returns a Result that passes, one of the attempts that its policy allows was answered,
-- and the answer meets all conditions of the assert block.
pub eval_http-passes :
    (env : Env) (spec : HttpAssert) (ctx : EvalContext) (r : Result)
    → (eval_http env spec ctx).1 ≡ returned r
    → r.pass ≡ true
    → IsAnswered env (allowed_by spec.retries) spec.assert
eval_http-passes env spec ctx r e p =
    let sound = (eval_http-IsWhole env spec ctx).2 in
    subst (IsSound env (allowed_by spec.retries) spec.assert) e sound p
