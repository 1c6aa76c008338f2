-- ===== src/Auth/Otp.antt =====
-- apps/api/src/modules/auth/services/otp.service.ts over the table of
-- packages/db/src/schema/otp-challenges.ts. The hashing of the package argon2 and the random number of
-- the platform are arguments. Times are milliseconds; a row is created at the time of its call.
pub mod Windows
pub mod History
pub mod Writes
pub mod Limits
pub mod Uses
pub mod Codes
mod Examples
use convene.Common.{
  ℕ, ◌+◌, ◌-◌, ◌*◌, ◌/◌, ◌%◌, ◌≡◌, ◌≢◌, Bool, true, false, ◌&&◌, Option, none, some, List, [], ◌∷◌,
  ltb, leb, ◌==◌, select, newest, oldest, update_where, insert, length, is_none, if◌then◌else◌,
  ceil_seconds,
}

pub data OtpChannel : Type 0 where
  email phone : OtpChannel

abbrev pub same_channel : OtpChannel → OtpChannel → Bool
same_channel email email = true
same_channel email phone = false
same_channel phone email = false
same_channel phone phone = true

-- argon2: `salt` stands for what it draws.
pub record Argon2 : Type 1 where
  pub Hash : Type 0
  pub hash : List ℕ → ℕ → Hash
  pub verify : Hash → List ℕ → Bool
  pub verify-hash : (code : List ℕ) (salt : ℕ) → verify (hash code salt) code ≡ true

abbrev pub otp_ttl_ms : ℕ
otp_ttl_ms = 10 * 60 * 1000

abbrev pub max_verification_attempts : ℕ
max_verification_attempts = 5

abbrev pub resend_cooldown_ms : ℕ
resend_cooldown_ms = 60 * 1000

abbrev pub max_resends_per_hour : ℕ
max_resends_per_hour = 3

abbrev pub one_hour_ms : ℕ
one_hour_ms = 60 * 60 * 1000

abbrev pub digit : ℕ → ℕ
digit d = 48 + d % 10

-- `toString().padStart(6, "0")` of a number below a million.
unfoldable pub generate_code : ℕ → List ℕ
generate_code n =
    digit (n / 100000)
    ∷ digit (n / 10000)
    ∷ digit (n / 1000)
    ∷ digit (n / 100)
    ∷ digit (n / 10)
    ∷ digit n
    ∷ []

pub data SendResult : Type 0 where
  sent : (code : List ℕ) (expires_at resend_available_in_seconds : ℕ) → SendResult
  rate_limited : (retry_after_seconds : ℕ) → SendResult

pub data VerifyResult : Type 0 where
  verified otp_invalid otp_expired otp_max_attempts : VerifyResult

-- What a send draws: the id of the row, the number of the code, and the salt.
pub record Draw : Type 0 where
  pub id : ℕ
  pub number : ℕ
  pub salt : ℕ

module _ (argon2 : Argon2) where
  open argon2 use {Hash, hash, verify}

  pub record Challenge : Type 0 where
    pub id : ℕ
    pub user_id : ℕ
    pub channel : OtpChannel
    pub code_hash : Hash
    pub expires_at : ℕ
    pub consumed_at : Option ℕ
    pub attempts : ℕ
    pub created_at : ℕ

  abbrev pub is_mine : ℕ → OtpChannel → Challenge → Bool
  is_mine user channel c = c.user_id == user && same_channel c.channel channel

  -- `createdAt > now - 1 hour`.
  abbrev pub is_recent : ℕ → OtpChannel → ℕ → Challenge → Bool
  is_recent user channel now c = is_mine user channel c && ltb now (c.created_at + one_hour_ms)

  abbrev pub is_open : ℕ → OtpChannel → Challenge → Bool
  is_open user channel c = is_mine user channel c && is_none c.consumed_at

  abbrev pub new_challenge : ℕ → OtpChannel → Draw → ℕ → Challenge
  new_challenge user channel draw now = record {
    id = draw.id;
    user_id = user;
    channel = channel;
    code_hash = hash (generate_code draw.number) draw.salt;
    expires_at = now + otp_ttl_ms;
    consumed_at = none;
    attempts = 0;
    created_at = now;
  }

  abbrev recent_challenges : ℕ → OtpChannel → ℕ → List Challenge → List Challenge
  recent_challenges user channel now db = select (is_recent user channel now) db

  -- The end of the cool-down after the newest challenge, if it is still to come.
  abbrev pub cooldown : Option Challenge → ℕ → Option ℕ
  cooldown none now = none
  cooldown (some c) now =
      if ltb now (c.created_at + resend_cooldown_ms)
      then some (ceil_seconds (c.created_at + resend_cooldown_ms - now))
      else none

  -- The time until the oldest challenge leaves the hour.
  abbrev window_reset : Option Challenge → ℕ → ℕ
  window_reset none now = 0
  window_reset (some c) now = ceil_seconds (c.created_at + one_hour_ms - now)

  unfoldable pub send : ℕ → OtpChannel → Draw → ℕ → List Challenge → SendResult × List Challenge
  send user channel draw now db =
      let recent = recent_challenges user channel now db in
      elim (cooldown (newest (λ c. c.created_at) recent) now) [
        | some seconds ↦ (rate_limited seconds, db)
        | none ↦
            if leb max_resends_per_hour (length recent)
            then (rate_limited (window_reset (oldest (λ c. c.created_at) recent) now), db)
            else (
              sent (generate_code draw.number) (now + otp_ttl_ms) (resend_cooldown_ms / 1000),
              insert (new_challenge user channel draw now) db,
            )
      ]

  abbrev pub set_attempts : ℕ → Challenge → Challenge
  set_attempts n c = record c { attempts = n }

  abbrev pub consume : ℕ → Challenge → Challenge
  consume now c = record c { consumed_at = some now }

  -- The check of the newest open challenge.
  unfoldable pub verify_active :
      Challenge → List ℕ → ℕ → List Challenge → VerifyResult × List Challenge
  verify_active active code now db =
      if leb max_verification_attempts active.attempts
      then (otp_max_attempts, db)
      else if ltb active.expires_at now
      then (otp_expired, db)
      else if verify active.code_hash code
      then (verified, update_where (λ c. c.id == active.id) (consume now) db)
      else (
        (if leb max_verification_attempts (active.attempts + 1)
            then otp_max_attempts
            else otp_invalid),
        update_where (λ c. c.id == active.id) (set_attempts (active.attempts + 1)) db,
      )

  unfoldable pub verify_code :
      ℕ → OtpChannel → List ℕ → ℕ → List Challenge → VerifyResult × List Challenge
  verify_code user channel code now db =
      elim (newest (λ c. c.created_at) (select (is_open user channel) db)) [
        | none ↦ (otp_invalid, db)
        | some active ↦ verify_active active code now db
      ]
