-- ===== src/RateLimit/Examples.antt =====
-- A key with two attempts a minute, in memory.
use convene.Common.{
  ℕ, ◌+◌, ◌≤◌, ◌≡◌, refl, Bool, true, false, ◌&&◌, none, some, List, [], ◌∷◌, arith, count, leb,
  ltb, map,
}
use convene.Infra.Redis.Memory.{text_eq}
use convene.Infra.Keys.{codes}
use convene.RateLimit.{
  RateLimitPolicy, RateLimitRequest, RateLimitKeyDimension, extract_dimension_value,
  build_composite_key_part,
}
use convene.RateLimit.Log.{admissions}
use convene.RateLimit.Script.{eval_sliding_window}
use convene.RateLimit.Script.Refines.{Attempt, answers, allowed_times, run-admissions, run-limited}
use convene.RateLimit.Guard.{Guard, check, check_in_process, fallback_limit}
use convene.RateLimit.Guard.Bound.{Call, passed, check-limited}
use convene.RateLimit.Memory.{memory, fresh, zset-fresh, zset, zremrangebyscore, zadd, pexpire}

abbrev key : List ℕ
key = codes "k"

abbrev attempts : List Attempt
attempts =
    record { at = 100; member = 1 }
    ∷ record { at = 200; member = 2 }
    ∷ record { at = 300; member = 3 }
    ∷ record { at = 1100; member = 4 }
    ∷ []

-- The third comes too soon; the first has left the window when the fourth comes.
four_answers : answers memory key 2 1000 attempts fresh ≡ true ∷ true ∷ false ∷ true ∷ []
unfolding answers eval_sliding_window memory fresh text_eq zset zremrangebyscore zadd pexpire
four_answers = refl

run-admissions_example :
    answers memory key 2 1000 attempts fresh ≡ admissions 2 1000 (map (λ a. a.at) attempts) []
unfolding eval_sliding_window memory fresh text_eq zset zremrangebyscore zadd pexpire
run-admissions_example =
    run-admissions memory key 2 1000 attempts fresh (zset-fresh key)
      ((omega arith, refl, (omega arith, refl, (omega arith, refl, (omega arith, refl, tt)))))

run-limited_example :
    count (λ x. ltb 150 x && leb x (150 + 1000)) (allowed_times memory key 2 1000 attempts fresh [])
    ≤ 2
unfolding eval_sliding_window memory fresh text_eq zset zremrangebyscore zadd pexpire
run-limited_example =
    run-limited memory key 2 1000 attempts fresh 150 (zset-fresh key)
      ((omega arith, refl, (omega arith, refl, (omega arith, refl, (omega arith, refl, tt)))))

abbrev policy : RateLimitPolicy
policy = record { limit = 4; window_seconds = 1; key_dimensions = RateLimitKeyDimension.user ∷ [] }

abbrev guard : Guard memory
guard = record { store = fresh; in_process_log = λ k. []; headers = none }

abbrev call : ℕ → ℕ → Bool → Call
call at id up = record { at = at; chance = record { member = id; redis_answers = up } }

abbrev calls : List Call
calls = call 100 1 true ∷ call 200 2 false ∷ call 300 3 false ∷ call 400 4 true ∷ []

check-limited_example :
    count (λ x. ltb 0 x && leb x (0 + 1000)) (passed memory key policy 1000 calls guard [])
    ≤ 4 + fallback_limit 4
unfolding check check_in_process eval_sliding_window memory fresh text_eq zset zremrangebyscore zadd
    pexpire
check-limited_example =
    check-limited memory key policy 1000 calls guard 0 (zset-fresh key) refl
      ((omega arith, refl, (omega arith, refl, (omega arith, refl, (omega arith, refl, tt)))))

abbrev anonymous : RateLimitRequest
anonymous = record {
  ip_address = some (codes "::1");
  forwarded = none;
  user_id = none;
  body_identifier = none;
  conversation_id = none;
}

-- A route for users needs one; a route for an address does not.
part_of_user :
    (build_composite_key_part (RateLimitKeyDimension.user ∷ []) anonymous ≡ none)
    × (build_composite_key_part (RateLimitKeyDimension.ip ∷ []) anonymous ≡ some (codes "ip=::1"))
unfolding build_composite_key_part extract_dimension_value
part_of_user = (refl, refl)
