-- ===== src/Auth/Otp/Windows.antt =====
-- How many challenges a send finds in an hour and in a minute before it.
use convene.Common.{
  ℕ, ◌≤◌, ◌+◌, ◌≡◌, refl, inl, inr, true, false, none, List, leb, arith, All-imp, count, count_mono,
  count-select, length, length-select, select, newest, newest-none, newest-max, All-false-count,
  Option-cases,
}
use convene.Auth.Otp.{
  Argon2, OtpChannel, email, phone, same_channel, Challenge, is_recent, one_hour_ms,
  resend_cooldown_ms, max_resends_per_hour, cooldown,
}
use convene.Auth.Otp.History.{is_made_within}

pub same_channel-eq : (c d : OtpChannel) → same_channel c d ≡ true → c ≡ d
same_channel-eq email email h = refl
same_channel-eq email phone h = cc
same_channel-eq phone email h = cc
same_channel-eq phone phone h = refl

module _ (argon2 : Argon2) (user : ℕ) (channel : OtpChannel) where
  -- A time within the hour before a call is recent for it.
  pub made-recent :
      (start span now : ℕ)
      → span ≤ one_hour_ms
      → leb now (start + span) ≡ true
      → (c : Challenge argon2) → is_made_within argon2 user channel start span c ≡ true
      → is_recent argon2 user channel now c ≡ true
  made-recent start span now short e c h = ground arith

  pub few-in_hour :
      (start now : ℕ) (db : List (Challenge argon2))
      → leb max_resends_per_hour (length (select (is_recent argon2 user channel now) db)) ≡ false
      → leb now (start + one_hour_ms) ≡ true
      → count (is_made_within argon2 user channel start one_hour_ms) db ≤ 2
  few-in_hour start now db few e = ground (
    arith,
    length-select (is_recent argon2 user channel now) db,
    count_mono (is_made_within argon2 user channel start one_hour_ms)
        (is_recent argon2 user channel now) db (made-recent start one_hour_ms now (omega arith) e),
  )

  pub none-in_minute :
      (start now : ℕ) (db : List (Challenge argon2))
      → cooldown argon2
          (newest (λ c. c.created_at) (select (is_recent argon2 user channel now) db))
          now
        ≡ none
      → leb now (start + resend_cooldown_ms) ≡ true
      → count (is_made_within argon2 user channel start resend_cooldown_ms) db ≤ 0
  none-in_minute start now db rested e =
      let made = is_made_within argon2 user channel start resend_cooldown_ms in
      let chosen = select (is_recent argon2 user channel now) db in
      let same =
        count-select made (is_recent argon2 user channel now) db
          (made-recent start resend_cooldown_ms now (omega arith) e) in
      elim (Option-cases (newest (λ c. c.created_at) chosen)) [
        | inl n ↦ ground (arith, newest-none (λ c. c.created_at) chosen n)
        | inr (a, f) ↦
            let past : a.created_at + resend_cooldown_ms ≤ now = ground arith in
            let old = All-false-count made chosen (
              All-imp (λ c. c.created_at ≤ a.created_at) (λ c. made c ≡ false) chosen
                (λ c h. ground arith) (newest-max (λ c. c.created_at) chosen {a = a} f)) in
            omega arith
      ]
