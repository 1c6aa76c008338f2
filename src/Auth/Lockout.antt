-- ===== src/Auth/Lockout.antt =====
-- apps/api/src/modules/auth/services/login-lockout.service.ts: failed sign-ins lock an
-- (identifier, address) pair for growing times. The counters stand in Redis, an interface.
pub mod Laws
mod Examples
use convene.Common.{
  ℕ, zero, suc, ◌+◌, ◌-◌, ◌*◌, Bool, true, false, Option, none, some, List, [], ◌∷◌, leb, ltb, min,
  or_else, ceil_seconds, if◌then◌else◌,
}
use convene.Infra.Keys.{login_lockout_key}
use convene.Infra.Redis.{Redis}

abbrev pub lockout_threshold : ℕ
lockout_threshold = 5

abbrev pub lockout_stages_seconds : List ℕ
lockout_stages_seconds = 60 ∷ 120 ∷ 300 ∷ 900 ∷ 3600 ∷ []

abbrev pub state_ttl_seconds : ℕ
state_ttl_seconds = 24 * 60 * 60

pub record LockoutState : Type 0 where
  pub failures : ℕ
  pub locked_until : Option ℕ

pub record LockStatus : Type 0 where
  pub locked : Bool
  pub retry_after_seconds : ℕ

abbrev pub initial : LockoutState
initial = record { failures = 0; locked_until = none }

get_or : List ℕ → ℕ → ℕ → ℕ
get_or [] i d = d
get_or (x ∷ xs) zero d = x
get_or (x ∷ xs) (suc i) d = get_or xs i d

-- The lock, in seconds, that the given number of failures brings.
pub stage_seconds : ℕ → ℕ
unfolding get_or
stage_seconds failures = get_or lockout_stages_seconds (min (failures - lockout_threshold) 4) 0

-- The state after one more failure.
pub failed : LockoutState → ℕ → LockoutState
failed state now =
    let failures = state.failures + 1 in
    record {
      failures = failures;
      locked_until =
          if leb lockout_threshold failures
          then some (now + stage_seconds failures * 1000)
          else state.locked_until;
    }

unlocked : LockStatus
unlocked = record { locked = false; retry_after_seconds = 0 }

status_after : Option ℕ → ℕ → LockStatus
unfolding unlocked
status_after none now = unlocked
status_after (some t) now = record { locked = true; retry_after_seconds = ceil_seconds (t - now) }

status_at : Option ℕ → ℕ → LockStatus
unfolding unlocked
status_at none now = unlocked
status_at (some t) now =
    if ltb now t
    then record { locked = true; retry_after_seconds = ceil_seconds (t - now) }
    else unlocked

module _ (redis : Redis LockoutState) where
  open redis use {Store, get, set_ex, del}

  pub read_state : Store → List ℕ → List ℕ → ℕ → LockoutState
  read_state s identifier ip now = or_else (get s (login_lockout_key identifier ip) now) initial

  pub check : Store → List ℕ → List ℕ → ℕ → LockStatus
  unfolding status_at
  check s identifier ip now = status_at (read_state s identifier ip now).locked_until now

  pub record_failure : Store → List ℕ → List ℕ → ℕ → Store × LockStatus
  unfolding status_after
  record_failure s identifier ip now =
      let state = failed (read_state s identifier ip now) now in
      (
        set_ex s (login_lockout_key identifier ip) state state_ttl_seconds now,
        status_after state.locked_until now,
      )

  pub reset : Store → List ℕ → List ℕ → Store
  reset s identifier ip = del s (login_lockout_key identifier ip)
