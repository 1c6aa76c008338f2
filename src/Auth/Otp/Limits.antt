-- ===== src/Auth/Otp/Limits.antt =====
-- Over any history of calls: how many challenges are made, and how often one is tried.
use convene.Common.{
  ℕ, ◌≤◌, ◌+◌, ◌≡◌, refl, sym, subst, inl, inr, Bool, true, false, none, List, [], ◌∷◌, leb, ◌==◌,
  arith, All, All-insert, All-update, count, length, select, newest, Bool-cases, count-insert,
  count-update_same, insert, update_where,
}
use convene.Auth.Otp.{
  Argon2, OtpChannel, Draw, Challenge, is_mine, is_recent, send, verify_code, one_hour_ms,
  resend_cooldown_ms, max_resends_per_hour, max_verification_attempts, cooldown, new_challenge,
  consume, set_attempts,
}
use convene.Auth.Otp.History.{OtpCall, send_call, verify_call, after, after_all, is_made_within}
use convene.Auth.Otp.Writes.{send-writes, verify-writes}
use convene.Auth.Otp.Windows.{same_channel-eq, few-in_hour, none-in_minute}

module _ (argon2 : Argon2) where
  pub record IsLimited (user : ℕ) (channel : OtpChannel) (start : ℕ) (db : List (Challenge argon2))
      : Type 0 where
    pub hourly : count (is_made_within argon2 user channel start one_hour_ms) db ≤ 3
    pub minutely : count (is_made_within argon2 user channel start resend_cooldown_ms) db ≤ 1
    pub tried : All (λ c. c.attempts ≤ max_verification_attempts) db

  inserted-le :
      (u user : ℕ) (ch channel : OtpChannel) (start span now : ℕ) (draw : Draw)
      (db : List (Challenge argon2)) (k : ℕ)
      → count (is_made_within argon2 u ch start span) db ≤ k + 1
      → (leb now (start + span) ≡ true
          → count (is_made_within argon2 user channel start span) db ≤ k)
      → count
          (is_made_within argon2 u ch start span)
          (insert (new_challenge argon2 user channel draw now) db)
        ≤ k + 1
  inserted-le u user ch channel start span now draw db k before room =
      let c = new_challenge argon2 user channel draw now in
      let made = is_made_within argon2 u ch start span in
      let more = count-insert made c db in
      elim (Bool-cases (made c)) [
        | inl t ↦
            let same_user : user ≡ u = ground arith in
            let same_ch = same_channel-eq channel ch (ground arith) in
            let there =
              subst (λ v. count (is_made_within argon2 v ch start span) db ≤ k) same_user
                (subst (λ d. count (is_made_within argon2 user d start span) db ≤ k) same_ch
                  (room (ground arith))) in
            ground (arith, more, there)
        | inr f ↦ ground (arith, more)
      ]

  insert-IsLimited :
      (u user : ℕ) (ch channel : OtpChannel) (start now : ℕ) (draw : Draw)
      (db : List (Challenge argon2))
      → IsLimited u ch start db
      → cooldown argon2
          (newest (λ c. c.created_at) (select (is_recent argon2 user channel now) db))
          now
        ≡ none
      → leb max_resends_per_hour (length (select (is_recent argon2 user channel now) db)) ≡ false
      → IsLimited u ch start (insert (new_challenge argon2 user channel draw now) db)
  insert-IsLimited u user ch channel start now draw db ok rested few =
      let c = new_challenge argon2 user channel draw now in
      record {
        hourly =
            inserted-le u user ch channel start one_hour_ms now draw db 2 ok.hourly
              (few-in_hour argon2 user channel start now db few);
        minutely =
            inserted-le u user ch channel start resend_cooldown_ms now draw db 0 ok.minutely
              (none-in_minute argon2 user channel start now db rested);
        tried = All-insert _ c db ok.tried (omega arith);
      }

  send-IsLimited :
      (u user : ℕ) (ch channel : OtpChannel) (start now : ℕ) (draw : Draw)
      (db : List (Challenge argon2))
      → IsLimited u ch start db
      → IsLimited u ch start (send argon2 user channel draw now db).1
  send-IsLimited u user ch channel start now draw db ok =
      elim (send-writes argon2 user channel draw now db) [
        | inl (s, e) ↦ rw e ok
        | inr (e, rested, few) ↦
            rw e (insert-IsLimited u user ch channel start now draw db ok rested few)
      ]

  updated-IsLimited :
      (u : ℕ) (ch : OtpChannel) (start : ℕ) (p : Challenge argon2 → Bool)
      (f : Challenge argon2 → Challenge argon2) (db : List (Challenge argon2))
      → ((x : Challenge argon2) → is_mine argon2 u ch (f x) ≡ is_mine argon2 u ch x)
      → ((x : Challenge argon2) → (f x).created_at ≡ x.created_at)
      → ((x : Challenge argon2)
          → x.attempts ≤ max_verification_attempts
          → (f x).attempts ≤ max_verification_attempts)
      → IsLimited u ch start db
      → IsLimited u ch start (update_where p f db)
  updated-IsLimited u ch start p f db mine time low ok =
      let same = λ (span : ℕ).
        count-update_same (is_made_within argon2 u ch start span) p f db
          (λ x h. rw (mine x, time x) refl) in
      record {
        hourly = omega (arith, same one_hour_ms, ok.hourly);
        minutely = omega (arith, same resend_cooldown_ms, ok.minutely);
        tried = All-update _ p f db (λ x h k. low x h) ok.tried;
      }

  verify-IsLimited :
      (u user : ℕ) (ch channel : OtpChannel) (start now : ℕ) (code : List ℕ)
      (db : List (Challenge argon2))
      → IsLimited u ch start db
      → IsLimited u ch start (verify_code argon2 user channel code now db).1
  verify-IsLimited u user ch channel start now code db ok =
      elim (verify-writes argon2 user channel code now db) [
        | inl e ↦ ground (arith, e, ok)
        | inr (a, e, inl (k, n)) ↦ subst (IsLimited u ch start) (sym k) ok
        | inr (a, e, inr (inl k)) ↦ rw k (
            updated-IsLimited u ch start (λ c. c.id == a.id) (consume argon2 now) db (λ x. refl)
              (λ x. refl) (λ x l. l) ok)
        | inr (a, e, inr (inr (n, k, low))) ↦ rw k (
            updated-IsLimited u ch start (λ c. c.id == a.id) (set_attempts argon2 (a.attempts + 1))
              db (λ x. refl) (λ x. refl) (λ x l. low) ok)
      ]

  pub after-IsLimited :
      (u : ℕ) (ch : OtpChannel) (start : ℕ) (c : OtpCall) (db : List (Challenge argon2))
      → IsLimited u ch start db
      → IsLimited u ch start (after argon2 c db)
  unfolding after
  after-IsLimited u ch start (send_call user channel draw now) db ok =
      send-IsLimited u user ch channel start now draw db ok
  after-IsLimited u ch start (verify_call user channel code now) db ok =
      verify-IsLimited u user ch channel start now code db ok

  rest-IsLimited :
      (u : ℕ) (ch : OtpChannel) (start : ℕ) (cs : List OtpCall) (db : List (Challenge argon2))
      → IsLimited u ch start db
      → IsLimited u ch start (after_all argon2 cs db)
  unfolding after_all
  rest-IsLimited u ch start [] db ok = ok
  rest-IsLimited u ch start (c ∷ cs) db ok =
      rest-IsLimited u ch start cs (after argon2 c db) (after-IsLimited u ch start c db ok)

  -- Over any sequence of sends and verifications that starts with an empty table, whatever the times of
  -- the calls, each user and channel has at most 3 challenges created in any hour
  -- `start < time ≤ start + 1 hour` and at most 1 in any minute, and no challenge has
  -- been tried more than 5 times.
  pub after_all-IsLimited :
      (u : ℕ) (ch : OtpChannel) (start : ℕ) (cs : List OtpCall)
      → IsLimited u ch start (after_all argon2 cs [])
  after_all-IsLimited u ch start cs =
      rest-IsLimited u ch start cs []
        (record { hourly = omega arith; minutely = omega arith; tried = tt })
