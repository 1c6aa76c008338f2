-- ===== src/RateLimit/Guard/Bound.antt =====
-- The guard's checks of one key, where Redis may fail and answer again at any time.
use convene.Common.{
  ℕ, ◌+◌, ◌≤◌, ◌≡◌, refl, Bool, false, ◌&&◌, List, [], ◌∷◌, arith, ltb, leb, if◌then◌else◌, All-imp,
  count, count-insert, insert, Bool-cases, inl, inr,
}
use convene.RateLimit.{RateLimitPolicy}
use convene.RateLimit.Log.{inside, admits, admit, Past, admit-Past, admit-IsLimited, IsLimited}
use convene.RateLimit.Window.{SortedSets, has_member}
use convene.RateLimit.Script.{eval_sliding_window}
use convene.RateLimit.Script.Refines
use convene.RateLimit.Guard.{Chance, Guard, check, check_in_process, fallback_limit}
use convene.RateLimit.Guard.Fallback

pub record Call : Type 0 where
  pub at : ℕ
  pub chance : Chance

module _ (r : SortedSets) (key : List ℕ) (policy : RateLimitPolicy) (window : ℕ) where
  -- Checks in the order of their times; an id that the script adds is new to the set.
  abbrev pub IsHistory : ℕ → List Call → Guard r → Type 0
  IsHistory last [] g = Unit
  IsHistory last (c ∷ rest) g =
      (last ≤ c.at)
      × (has_member c.chance.member (SortedSets.zset r g.store key c.at) ≡ false)
      × IsHistory c.at rest (check r key c.at window policy c.chance g).1

  -- The times at which a check let a request pass.
  pub passed : List Call → Guard r → List ℕ → List ℕ
  passed [] g times = times
  passed (c ∷ rest) g times =
      let (result, g') = check r key c.at window policy c.chance g in
      passed rest g' (if result.allowed then insert c.at times else times)

  -- The log of what Redis let pass, and that of what the process did, held and within limits.
  record Split (last : ℕ) (g : Guard r) (times : List ℕ) : Type 0 where
    by_redis : List ℕ
    by_process : List ℕ
    redis_past : Past last by_redis
    redis_holds : Refines.Holds r key policy.limit window last g.store by_redis
    redis_limited : IsLimited policy.limit window by_redis
    process_holds : Fallback.Holds key policy window last g.in_process_log by_process
    process_limited : IsLimited (fallback_limit policy.limit) window by_process
    sum :
        (start : ℕ)
        → count (inside window start) times
          ≡ count (inside window start) by_redis + count (inside window start) by_process

  count-admitted :
      (allowed : Bool) (limit now start : ℕ) (times log : List ℕ)
      → allowed ≡ admits limit window now log
      → count (inside window start) (if allowed then insert now times else times)
          + count (inside window start) log
        ≡ count (inside window start) times
          + count (inside window start) (admit limit window now log)
  unfolding admit
  count-admitted allowed limit now start times log e = rw e (
      ground (
        arith,
        count-insert (inside window start) now times,
        count-insert (inside window start) now log,
      ))

  redis_step :
      (last now id : ℕ) (g : Guard r) (times : List ℕ)
      → last ≤ now
      → has_member id (SortedSets.zset r g.store key now) ≡ false
      → Split last g times
      → let (result, store) = eval_sliding_window r key now window policy.limit id g.store in
        Split now (record g { store = store }) (if result.allowed then insert now times else times)
  redis_step last now id g times le fresh v =
      let step =
        Refines.eval_sliding_window-Holds r key policy.limit window last now id g.store v.by_redis
          le fresh v.redis_past v.redis_holds in
      record {
        by_redis = admit policy.limit window now v.by_redis;
        by_process = v.by_process;
        redis_past = admit-Past policy.limit window last now v.by_redis le v.redis_past;
        redis_holds = step.1;
        redis_limited = admit-IsLimited policy.limit window now v.by_redis v.redis_limited;
        process_holds = λ u a. v.process_holds u (omega arith);
        process_limited = v.process_limited;
        sum = λ start.
            omega
              (arith, v.sum start, count-admitted _ policy.limit now start times v.by_redis step.0);
      }

  process_step :
      (last now : ℕ) (g : Guard r) (times : List ℕ)
      → last ≤ now
      → Split last g times
      → let (result, log) = check_in_process key now window policy g.in_process_log in
        Split now
          (record g { in_process_log = log })
          (if result.allowed then insert now times else times)
  process_step last now g times le v =
      let step =
        Fallback.check_in_process-Holds key policy window last now g.in_process_log v.by_process le
          v.process_holds in
      let limit = fallback_limit policy.limit in
      record {
        by_redis = v.by_redis;
        by_process = admit limit window now v.by_process;
        redis_past = All-imp _ _ v.by_redis (λ x a. omega arith) v.redis_past;
        redis_holds = λ t u a b. v.redis_holds t u (omega arith) b;
        redis_limited = v.redis_limited;
        process_holds = step.1;
        process_limited = admit-IsLimited limit window now v.by_process v.process_limited;
        sum = λ start.
            omega (arith, v.sum start, count-admitted _ limit now start times v.by_process step.0);
      }

  check-Split :
      (last : ℕ) (c : Call) (g : Guard r) (times : List ℕ)
      → last ≤ c.at
      → has_member c.chance.member (SortedSets.zset r g.store key c.at) ≡ false
      → Split last g times
      → let (result, g') = check r key c.at window policy c.chance g in
        Split c.at g' (if result.allowed then insert c.at times else times)
  unfolding check
  check-Split last c g times le fresh v = elim (Bool-cases c.chance.redis_answers) [
    | inl t ↦ rw t (redis_step last c.at c.chance.member g times le fresh v)
    | inr f ↦ rw f (process_step last c.at g times le v)
  ]

  passed-limited :
      (last : ℕ) (calls : List Call) (g : Guard r) (times : List ℕ) (start : ℕ)
      → IsHistory last calls g
      → Split last g times
      → count (inside window start) (passed calls g times)
        ≤ policy.limit + fallback_limit policy.limit
  unfolding passed
  passed-limited last [] g times start h v =
      omega (arith, v.sum start, v.redis_limited start, v.process_limited start)
  passed-limited last (c ∷ rest) g times start h v =
      passed-limited c.at rest _ _ start h.2 (check-Split last c g times h.0 h.1 v)

  -- However Redis fails and answers between the checks of a key, from a key without entries a guard
  -- lets at most the limit, and a quarter of it but at least one, pass in any window.
  pub check-limited :
      (calls : List Call) (g : Guard r) (start : ℕ)
      → ((t : ℕ) → SortedSets.zset r g.store key t ≡ [])
      → g.in_process_log key ≡ []
      → IsHistory 0 calls g
      → count (λ x. ltb start x && leb x (start + window)) (passed calls g [])
        ≤ policy.limit + fallback_limit policy.limit
  check-limited calls g start empty none h = passed-limited 0 calls g [] start h (record {
    by_redis = [];
    by_process = [];
    redis_past = tt;
    redis_holds = λ t u a b. rw (empty t) refl;
    redis_limited = λ start. omega arith;
    process_holds = λ u a. rw none refl;
    process_limited = λ start. omega arith;
    sum = λ start. omega arith;
  })
