-- ===== src/Auth/Otp/Uses.antt =====
-- Each code that was sent is found right once at most.
use convene.Common.{
  ℕ, ◌≢◌, ◌≤◌, ◌+◌, ◌≡◌, refl, inl, inr, Bool, true, false, not, ◌&&◌, some, List, [], ◌∷◌, ◌==◌,
  arith, All-imp, All-select_if, count, count-none, count-update, count_mono, count-insert, select,
  newest, newest-All, Bool-cases, update_where, is_none, if◌then◌else◌, leb, count-update-le,
}
use convene.Auth.Otp.{
  Argon2, OtpChannel, Draw, Challenge, VerifyResult, verified, otp_invalid, otp_expired,
  otp_max_attempts, is_open, consume, set_attempts, new_challenge,
}
use convene.Auth.Otp.History.{
  OtpCall, was_verified, send_call, verify_call, after, sent_by, verified_by, sent_in, verified_in,
}
use convene.Auth.Otp.Writes.{send-writes, verify-writes}

module _ {ℓ} {A : Type ℓ} (p q : A → Bool) where
  count_split :
      (xs : List A) → count q xs ≡ count (λ x. q x && p x) xs + count (λ x. q x && not (p x)) xs
  count_split [] = refl
  count_split (x ∷ xs) = ground (arith, count_split xs)

  -- An update that takes a test from the rows it writes, one of which the query found.
  count-update_found :
      (o : A → Bool) (key : A → ℕ) (f : A → A) (xs : List A) {a : A}
      → ((x : A) → o x ≡ true → q x ≡ true)
      → newest key (select o xs) ≡ some a
      → p a ≡ true
      → ((x : A) → p x ≡ true → q (f x) ≡ false)
      → count q (update_where p f xs) + 1 ≤ count q xs
  count-update_found o key f xs {a} weaker e t clear =
      let left =
        count_mono (λ x. q (if p x then f x else x)) (λ x. q x && not (p x)) xs
          (λ x h. ground (arith, clear x)) in
      elim (Bool-cases (leb 1 (count (λ x. q x && p x) xs))) [
        | inr z ↦
            let none_found =
              newest-All (λ x. p x ≡ false) key (select o xs) {a = a}
                (All-select_if (λ x. p x ≡ false) o xs
                  (All-imp (λ x. (q x && p x) ≡ false) (λ x. o x ≡ true → p x ≡ false) xs
                    (λ x h k. ground (arith, weaker x k)) (count-none _ xs (ground arith))))
                e in
            absurd (ground arith)
        | inl s ↦ ground (arith, left, count-update q p f xs, count_split xs)
      ]

not_verified : (r : VerifyResult) → r ≢ verified → was_verified r ≡ 0
not_verified verified n = absurd (n refl)
not_verified otp_invalid n = refl
not_verified otp_expired n = refl
not_verified otp_max_attempts n = refl

module _ (argon2 : Argon2) where
  abbrev unused : List (Challenge argon2) → ℕ
  unused db = count (λ c. is_none c.consumed_at) db

  send-unused :
      (user : ℕ) (channel : OtpChannel) (draw : Draw) (now : ℕ) (db : List (Challenge argon2))
      → let c = send_call user channel draw now in
        unused (after argon2 c db) ≤ unused db + sent_by argon2 c db
  unfolding after sent_by
  send-unused user channel draw now db = elim (send-writes argon2 user channel draw now db) [
    | inl (s, e) ↦ rw (e, after) (omega arith)
    | inr (e, rested, few) ↦
        rw (e, after, sent_by)
          (omega (
            arith,
            count-insert (λ c. is_none c.consumed_at) (new_challenge argon2 user channel draw now)
                db,
          ))
  ]

  verify-unused :
      (user : ℕ) (channel : OtpChannel) (code : List ℕ) (now : ℕ) (db : List (Challenge argon2))
      → let c = verify_call user channel code now in
        unused (after argon2 c db) + verified_by argon2 c db ≤ unused db
  unfolding after verified_by
  verify-unused user channel code now db = elim (verify-writes argon2 user channel code now db) [
    | inl e ↦ rw (e, after, verified_by) (omega arith)
    | inr (a, e, inl (k, n)) ↦ rw (k, after, verified_by, not_verified _ n) (omega arith)
    | inr (a, e, inr (inl k)) ↦
        rw (k, after, verified_by)
          (count-update_found (λ c. c.id == a.id) (λ c. is_none c.consumed_at)
            (is_open argon2 user channel) (λ c. c.created_at) (consume argon2 now) db {a = a}
            (λ x h. ground arith) e (ground arith) (λ x h. refl))
    | inr (a, e, inr (inr (n, k, low))) ↦
        rw (k, after, verified_by, not_verified _ n)
          (omega (
            arith,
            count-update-le (λ c. is_none c.consumed_at) (λ c. c.id == a.id)
                (set_attempts argon2 (a.attempts + 1)) db (λ x h t. t),
          ))
  ]

  after-unused :
      (c : OtpCall) (db : List (Challenge argon2))
      → unused (after argon2 c db) + verified_by argon2 c db ≤ unused db + sent_by argon2 c db
  unfolding sent_by verified_by
  after-unused (send_call user channel draw now) db =
      omega (arith, send-unused user channel draw now db)
  after-unused (verify_call user channel code now) db =
      omega (arith, verify-unused user channel code now db)

  verified_in-le-unused :
      (cs : List OtpCall) (db : List (Challenge argon2))
      → verified_in argon2 cs db ≤ unused db + sent_in argon2 cs db
  unfolding verified_in sent_in
  verified_in-le-unused [] db = omega arith
  verified_in-le-unused (c ∷ cs) db =
      omega (arith, after-unused c db, verified_in-le-unused cs (after argon2 c db))

  -- Over any sequence of sends and verifications that starts with an empty table, there are at most
  -- as many successful verifications as codes sent.
  pub verified_in-le-sent_in : (cs : List OtpCall) → verified_in argon2 cs [] ≤ sent_in argon2 cs []
  verified_in-le-sent_in cs = omega (arith, verified_in-le-unused cs [])
