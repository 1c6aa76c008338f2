-- ===== src/RateLimit/Guard.antt =====
-- rate-limit.guard.ts: `RateLimitGuard`, with the fallback that a process keeps for when Redis does not
-- answer. The result of a check is one call of the script; a script that fails has not run.
use convene.Common.{
  ℕ, ◌+◌, ◌-◌, ◌*◌, ◌/◌, max, Bool, true, false, not, Option, none, some, List, [], ◌∷◌, ltb, leb,
  length, select, insert, if◌then◌else◌, ceil_seconds,
}
use convene.Errors.{
  M, AppError, app_error, app_error_retry, ErrorClass, ErrorCode, pure, throw_if, or_throw, modify,
  ◌>>=◌, ◌>>◌,
}
use convene.Infra.Keys.{rate_limit_key}
use convene.Infra.Redis.Memory.{text_eq}
use convene.RateLimit.{
  RateLimitPolicy, RateLimitScope, RateLimitRequest, rate_limit_policies, scope_name,
  build_composite_key_part,
}
use convene.RateLimit.Window.{SortedSets}
use convene.RateLimit.Script.{SlidingWindowResult, eval_sliding_window}
pub mod Fallback
pub mod Bound

abbrev pub in_process_fallback_divisor : ℕ
in_process_fallback_divisor = 4

abbrev pub fallback_limit : ℕ → ℕ
fallback_limit limit = max 1 (limit / in_process_fallback_divisor)

abbrev pub Log : Type 0
Log = List ℕ → List ℕ

abbrev pub set_log : List ℕ → List ℕ → Log → Log
set_log key times log k = if text_eq key k then times else log k

unfoldable pub check_in_process : List ℕ → ℕ → ℕ → RateLimitPolicy → Log → SlidingWindowResult × Log
check_in_process key now window policy log =
    let timestamps = select (λ t. ltb now (t + window)) (log key) in
    if leb (fallback_limit policy.limit) (length timestamps)
    then (record { allowed = false; total = length timestamps }, set_log key timestamps log)
    else (
      record { allowed = true; total = length (insert now timestamps) },
      set_log key (insert now timestamps) log,
    )

pub record RateLimitHeaders : Type 0 where
  pub limit : ℕ
  pub remaining : ℕ
  pub reset : ℕ
  pub retry_after : Option ℕ

abbrev pub headers_of : RateLimitPolicy → ℕ → SlidingWindowResult → RateLimitHeaders
headers_of policy now result = record {
  limit = policy.limit;
  remaining = policy.limit - result.total;
  reset = ceil_seconds (now + policy.window_seconds * 1000);
  retry_after = if result.allowed then none else some policy.window_seconds;
}

abbrev too_many : RateLimitPolicy → AppError
too_many policy =
    app_error_retry ErrorClass.too_many_requests_app_error ErrorCode.too_many_requests
      policy.window_seconds

-- The error for a request without the value that a key needs is no `AppError`: it ends as internal.
abbrev no_dimension : AppError
no_dimension = app_error ErrorClass.internal_app_error ErrorCode.internal_error

-- What the world decides for one scope: the id drawn, and whether Redis answers.
pub record Chance : Type 0 where
  pub member : ℕ
  pub redis_answers : Bool

module _ (r : SortedSets) where
  pub record Guard : Type 0 where
    pub store : SortedSets.Store r
    pub in_process_log : Log
    pub headers : Option RateLimitHeaders

  unfoldable pub check :
      List ℕ → ℕ → ℕ → RateLimitPolicy → Chance → Guard → SlidingWindowResult × Guard
  check key now window policy chance g =
      if chance.redis_answers
      then (let (result, store) =
            eval_sliding_window r key now window policy.limit chance.member g.store in
          (result, record g { store = store }))
      else (let (result, log) = check_in_process key now window policy g.in_process_log in
          (result, record g { in_process_log = log }))

  -- One round of the loop over the scopes.
  unfoldable pub check_scope : RateLimitRequest → ℕ → RateLimitScope × Chance → M Guard (Unit {0})
  check_scope request now (scope, chance) =
      let policy = rate_limit_policies scope in
      or_throw (build_composite_key_part policy.key_dimensions request) no_dimension >>= λ part.
      λ g.
        let (result, next) =
          check (rate_limit_key (scope_name scope) part) now (policy.window_seconds * 1000) policy
            chance g in
        throw_if (not result.allowed) (too_many policy)
          (record next { headers = some (headers_of policy now result) })

  unfoldable pub can_activate :
      RateLimitRequest → ℕ → List (RateLimitScope × Chance) → M Guard (Unit {0})
  can_activate request now [] = pure tt
  can_activate request now (c ∷ rest) = check_scope request now c >> can_activate request now rest
