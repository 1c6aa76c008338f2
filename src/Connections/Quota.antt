-- ===== src/Connections/Quota.antt =====
-- apps/api/src/modules/connections/services/connection-quota.service.ts: what a sender may send in a
-- day, in a minute, and with the same note. The local date of a user is made by the platform's
-- Intl.DateTimeFormat, and is an argument.
pub mod Notes
pub mod Daily
use convene.Common.{
  ℕ, ◌+◌, ◌-◌, ◌*◌, ◌/◌, min, max, Bool, true, false, List, ◌++◌, ltb, ◌==◌, if◌then◌else◌, Option,
  is_some,
}
use convene.Infra.Keys.{
  connection_request_daily_quota_key, connection_request_soft_block_key, rate_limit_key, codes,
}
use convene.Infra.Redis.{Redis}
use convene.Infra.Redis.Counters.{Counters, value_of}
use convene.RateLimit.{
  RateLimitScope, RateLimitPolicy, connection_requests_velocity, connection_requests_velocity_pro,
  rate_limit_policies, scope_name,
}
use convene.RateLimit.Window.{SortedSets}
use convene.RateLimit.Script.{SlidingWindowResult, eval_sliding_window}
use convene.Connections.Cooldown.{day_ms}

pub data ConnectionPlan : Type 0 where
  free premium pro : ConnectionPlan

unfoldable pub daily_limits : ConnectionPlan → ℕ
daily_limits free = 8
daily_limits premium = 30
daily_limits pro = 120

abbrev pub soft_block_seconds : ℕ
soft_block_seconds = 60 * 60

unfoldable pub plan_to_velocity_scope : ConnectionPlan → RateLimitScope
plan_to_velocity_scope free = connection_requests_velocity
plan_to_velocity_scope premium = connection_requests_velocity
plan_to_velocity_scope pro = connection_requests_velocity_pro

-- `setUTCHours(24, 0, 0, 0)`.
abbrev pub next_utc_midnight : ℕ → ℕ
next_utc_midnight now = (now / day_ms + 1) * day_ms

-- `msUntilLocalMidnight`, which is the time to the next midnight of UTC, and at least a minute.
abbrev pub ms_until_midnight : ℕ → ℕ
ms_until_midnight now = max 60_000 (next_utc_midnight now - now)

pub record DailyQuota : Type 0 where
  pub used : ℕ
  pub limit : ℕ
  pub resets_at : ℕ

-- `DailyQuota & { allowed: boolean }`.
pub record CheckedQuota : Type 0 where
  pub allowed : Bool
  pub quota : DailyQuota

abbrev pub daily_quota : ℕ → ℕ → ℕ → DailyQuota
daily_quota used limit now = record {
  used = used;
  limit = limit;
  resets_at = now + ms_until_midnight now;
}

module _ (c : Counters) where
  open c use {Store, lookup, incr, decr, pexpire}

  -- `checkDailyQuota`, on the key of the user and the date.
  unfoldable pub check_key : ℕ → List ℕ → ℕ → Store → CheckedQuota × Store
  check_key limit key now s =
      let s1 = incr s key now in
      let used = value_of (lookup s1 key now) in
      let s2 = if used == 1 then pexpire s1 key (ms_until_midnight now) now else s1 in
      if ltb limit used
      then (record { allowed = false; quota = daily_quota limit limit now }, decr s2 key now)
      else (record { allowed = true; quota = daily_quota used limit now }, s2)

  unfoldable pub check_daily_quota :
      List ℕ → ConnectionPlan → (ℕ → List ℕ) → ℕ → Store → CheckedQuota × Store
  unfolding check_key daily_limits connection_request_daily_quota_key
  check_daily_quota user plan local_date now s =
      check_key (daily_limits plan) (connection_request_daily_quota_key user (local_date now)) now s

  -- `peekDailyQuota`.
  unfoldable pub peek_daily_quota : List ℕ → ConnectionPlan → (ℕ → List ℕ) → ℕ → Store → DailyQuota
  unfolding daily_limits connection_request_daily_quota_key
  peek_daily_quota user plan local_date now s =
      let limit = daily_limits plan in
      let key = connection_request_daily_quota_key user (local_date now) in
      daily_quota (min limit (value_of (lookup s key now))) limit now

-- `checkVelocity`.
unfoldable pub check_velocity :
    (r : SortedSets)
    → List ℕ
    → ConnectionPlan
    → ℕ
    → ℕ
    → SortedSets.Store r
    → SlidingWindowResult × SortedSets.Store r
unfolding plan_to_velocity_scope rate_limit_policies rate_limit_key eval_sliding_window
check_velocity r user plan now member s =
    let scope = plan_to_velocity_scope plan in
    let policy = rate_limit_policies scope in
    eval_sliding_window r (rate_limit_key (scope_name scope) (codes "user=" ++ user)) now
      (policy.window_seconds * 1000) policy.limit member s

module _ (f : Redis ℕ) where
  open f use {Store, get, set_ex}

  unfoldable pub is_soft_blocked : List ℕ → ℕ → Store → Bool
  unfolding connection_request_soft_block_key
  is_soft_blocked user now s = is_some (get s (connection_request_soft_block_key user) now)

  unfoldable pub apply_soft_block : List ℕ → ℕ → Store → Store
  unfolding connection_request_soft_block_key
  apply_soft_block user now s =
      set_ex s (connection_request_soft_block_key user) 1 soft_block_seconds now
