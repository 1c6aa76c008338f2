-- ===== src/Auth/Otp/Writes.antt =====
-- What a send and a verification write.
use convene.Common.{
  if◌then◌else◌, ℕ, ◌≤◌, ◌+◌, ◌≡◌, refl, inl, inr, Bool, true, false, none, some, List, leb, ltb,
  ◌==◌, ◌/◌, arith, length, select, newest, oldest, Bool-cases, Option-cases, insert, update_where,
  ◌⊎◌, ◌≢◌,
}
use convene.Auth.Otp.{
  Argon2, OtpChannel, Draw, Challenge, is_recent, is_open, send, verify_code, verify_active,
  verified, VerifyResult, sent, window_reset, rate_limited, generate_code, otp_ttl_ms,
  resend_cooldown_ms, otp_invalid, otp_max_attempts, max_resends_per_hour,
  max_verification_attempts, cooldown, new_challenge, consume, set_attempts,
}

module _ (argon2 : Argon2) where
  -- What a send writes.
  pub send-writes :
      (user : ℕ) (channel : OtpChannel) (draw : Draw) (now : ℕ) (db : List (Challenge argon2))
      → let recent = select (is_recent argon2 user channel now) db in
        ((s : ℕ) × (send argon2 user channel draw now db ≡ (rate_limited s, db)))
        ⊎ ((send argon2 user channel draw now db ≡ (
          sent (generate_code draw.number) (now + otp_ttl_ms) (resend_cooldown_ms / 1000),
          insert (new_challenge argon2 user channel draw now) db,
        ))
            × (cooldown argon2 (newest (λ c. c.created_at) recent) now ≡ none)
            × (leb max_resends_per_hour (length recent) ≡ false))
  unfolding send
  send-writes user channel draw now db =
      let recent = select (is_recent argon2 user channel now) db in
      elim (Option-cases (cooldown argon2 (newest (λ c. c.created_at) recent) now)) [
        | inl n ↦ elim (Bool-cases (leb max_resends_per_hour (length recent))) [
          | inl t ↦
              inl
                (window_reset argon2 (oldest (λ c. c.created_at) recent) now, rw (n, t, send) refl)
          | inr f ↦ inr (rw (n, f, send) (refl, refl, refl))
        ]
        | inr (s, e) ↦ inl (s, rw (e, send) refl)
      ]

  -- A verification that writes does it to the open challenge, tried fewer than five times.
  abbrev pub IsWritten :
      Challenge argon2
      → ℕ
      → List (Challenge argon2)
      → VerifyResult × List (Challenge argon2)
      → Type 0
  IsWritten a now db out =
      ((out.1 ≡ db) × (out.0 ≢ verified))
      ⊎ ((out ≡ (verified, update_where (λ c. c.id == a.id) (consume argon2 now) db))
          ⊎ ((out.0 ≢ verified)
              × (out.1 ≡ update_where (λ c. c.id == a.id) (set_attempts argon2 (a.attempts + 1)) db)
              × (a.attempts + 1 ≤ max_verification_attempts)))

  refused : (b : Bool) → (if b then otp_max_attempts else otp_invalid) ≢ verified
  refused true e = cc
  refused false e = cc

  pub verify_active-writes :
      (a : Challenge argon2) (code : List ℕ) (now : ℕ) (db : List (Challenge argon2))
      → IsWritten a now db (verify_active argon2 a code now db)
  unfolding verify_active
  verify_active-writes a code now db =
      elim (Bool-cases (leb max_verification_attempts a.attempts)) [
        | inl t ↦ inl (rw (t, verify_active) (refl, λ e. cc))
        | inr f ↦ elim (Bool-cases (ltb a.expires_at now)) [
          | inl t ↦ inl (rw (f, t, verify_active) (refl, λ e. cc))
          | inr g ↦ elim (Bool-cases (argon2.verify a.code_hash code)) [
            | inl t ↦ inr (inl (rw (f, g, t, verify_active) refl))
            | inr h ↦ inr (inr (rw (f, g, h, verify_active) (refused _, refl, ground arith)))
          ]
        ]
      ]

  pub verify-writes :
      (user : ℕ) (channel : OtpChannel) (code : List ℕ) (now : ℕ) (db : List (Challenge argon2))
      → (verify_code argon2 user channel code now db ≡ (otp_invalid, db))
        ⊎ ((a : Challenge argon2) × (newest
                (λ c. c.created_at)
                (select (is_open argon2 user channel) db)
              ≡ some a)
            × IsWritten a now db (verify_code argon2 user channel code now db))
  unfolding verify_code
  verify-writes user channel code now db =
      elim (Option-cases (newest (λ c. c.created_at) (select (is_open argon2 user channel) db))) [
        | inl n ↦ inl (rw (n, verify_code) refl)
        | inr (a, e) ↦ inr (a, e, rw (e, verify_code) (verify_active-writes a code now db))
      ]
