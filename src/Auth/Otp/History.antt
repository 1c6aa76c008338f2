-- ===== src/Auth/Otp/History.antt =====
-- Sequences of calls of the service, in any order of their times.
use convene.Common.{ℕ, ◌+◌, Bool, ◌&&◌, List, [], ◌∷◌, ltb, leb}
use convene.Auth.Otp.{
  Argon2, OtpChannel, Draw, Challenge, SendResult, sent, rate_limited, VerifyResult, verified,
  otp_invalid, otp_expired, otp_max_attempts, is_mine, send, verify_code,
}

pub data OtpCall : Type 0 where
  send_call : (user : ℕ) (channel : OtpChannel) (draw : Draw) (now : ℕ) → OtpCall
  verify_call : (user : ℕ) (channel : OtpChannel) (code : List ℕ) (now : ℕ) → OtpCall

abbrev pub was_sent : SendResult → ℕ
was_sent (sent c e s) = 1
was_sent (rate_limited s) = 0

abbrev pub was_verified : VerifyResult → ℕ
was_verified verified = 1
was_verified otp_invalid = 0
was_verified otp_expired = 0
was_verified otp_max_attempts = 0

module _ (argon2 : Argon2) where
  unfoldable pub after : OtpCall → List (Challenge argon2) → List (Challenge argon2)
  after (send_call user channel draw now) db = (send argon2 user channel draw now db).1
  after (verify_call user channel code now) db = (verify_code argon2 user channel code now db).1

  unfoldable pub after_all : List OtpCall → List (Challenge argon2) → List (Challenge argon2)
  after_all [] db = db
  after_all (c ∷ cs) db = after_all cs (after c db)

  -- The challenges of one user and channel made in `start < time ≤ start + span`.
  abbrev pub is_made_within : ℕ → OtpChannel → ℕ → ℕ → Challenge argon2 → Bool
  is_made_within user channel start span c =
      is_mine argon2 user channel c && (ltb start c.created_at && leb c.created_at (start + span))

  -- How many codes a call sends, and how many it finds right.
  unfoldable pub sent_by : OtpCall → List (Challenge argon2) → ℕ
  sent_by (send_call user channel draw now) db = was_sent (send argon2 user channel draw now db).0
  sent_by (verify_call user channel code now) db = 0

  unfoldable pub verified_by : OtpCall → List (Challenge argon2) → ℕ
  verified_by (send_call user channel draw now) db = 0
  verified_by (verify_call user channel code now) db =
      was_verified (verify_code argon2 user channel code now db).0

  unfoldable pub sent_in : List OtpCall → List (Challenge argon2) → ℕ
  sent_in [] db = 0
  sent_in (c ∷ cs) db = sent_by c db + sent_in cs (after c db)

  unfoldable pub verified_in : List OtpCall → List (Challenge argon2) → ℕ
  verified_in [] db = 0
  verified_in (c ∷ cs) db = verified_by c db + verified_in cs (after c db)
