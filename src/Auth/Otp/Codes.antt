-- ===== src/Auth/Otp/Codes.antt =====
-- A code that was sent is found right, if fewer than five wrong ones came before it.
use convene.Common.{
  ℕ, ◌+◌, ◌≤◌, ◌≡◌, refl, sym, subst, inl, inr, true, false, ◌∙◌, some, List, [], ◌∷◌, leb, ltb,
  ◌==◌, arith, min, All, All-select_if, select, select-insert, insert, newest, newest-insert,
  newest-update, length, Bool-cases, if◌then◌else◌,
}
use convene.Auth.Otp.{
  Argon2, OtpChannel, same_channel, email, phone, Draw, Challenge, sent, verified, otp_max_attempts,
  send, verify_code, verify_active, is_open, new_challenge, set_attempts, generate_code, otp_ttl_ms,
  max_verification_attempts,
}
use convene.Auth.Otp.Writes.{send-writes}

same_channel_refl : (c : OtpChannel) → same_channel c c ≡ true
same_channel_refl email = refl
same_channel_refl phone = refl

module _ (argon2 : Argon2) (user : ℕ) (channel : OtpChannel) where
  unfoldable pub verify_all : List (List ℕ) → ℕ → List (Challenge argon2) → List (Challenge argon2)
  verify_all [] now db = db
  verify_all (g ∷ gs) now db = verify_all gs now (verify_code argon2 user channel g now db).1

  abbrev IsActive : Challenge argon2 → ℕ → List (Challenge argon2) → Type 0
  IsActive c n db =
      newest (λ c. c.created_at) (select (is_open argon2 user channel) db)
      ≡ some (set_attempts argon2 n c)

  wrong-IsActive :
      (c : Challenge argon2) (n now : ℕ) (g : List ℕ) (db : List (Challenge argon2))
      → now ≤ c.expires_at
      → argon2.verify c.code_hash g ≡ false
      → IsActive c n db
      → IsActive c
          (if leb max_verification_attempts n then n else n + 1)
          (verify_code argon2 user channel g now db).1
  unfolding verify_code verify_active
  wrong-IsActive c n now g db time w e = elim (Bool-cases (leb max_verification_attempts n)) [
    | inl t ↦ rw (e, verify_code, verify_active, t) e
    | inr t ↦
        let early : ltb c.expires_at now ≡ false = ground arith in
        let itself : (c.id == c.id) ≡ true = ground arith in
        rw (e, verify_code, verify_active, t, early, w)
          (newest-update (λ c. c.created_at) (is_open argon2 user channel) (λ x. x.id == c.id)
              (set_attempts argon2 (n + 1)) db (λ x. ground arith) (λ x. ground arith)
            ∙ rw (e, itself) refl)
  ]

  all_wrong-IsActive :
      (c : Challenge argon2) (now : ℕ) (gs : List (List ℕ)) (n : ℕ) (db : List (Challenge argon2))
      → now ≤ c.expires_at
      → n ≤ max_verification_attempts
      → All (λ g. argon2.verify c.code_hash g ≡ false) gs
      → IsActive c n db
      → IsActive c (min max_verification_attempts (n + length gs)) (verify_all gs now db)
  unfolding verify_all
  all_wrong-IsActive c now [] n db time low w e = subst (λ k. IsActive c k db) (omega arith) e
  all_wrong-IsActive c now (g ∷ gs) n db time low w e =
      let next = if leb max_verification_attempts n then n else n + 1 in
      let sum : min max_verification_attempts (next + length gs)
          ≡ min max_verification_attempts (n + length (g ∷ gs)) =
        ground arith in
      subst (λ k. IsActive c k (verify_all (g ∷ gs) now db)) sum
        (all_wrong-IsActive c now gs next (verify_code argon2 user channel g now db).1 time
          (ground arith) w.1 (wrong-IsActive c n now g db time w.0 e))

  right-verified :
      (c : Challenge argon2) (n now : ℕ) (code : List ℕ) (db : List (Challenge argon2))
      → now ≤ c.expires_at
      → argon2.verify c.code_hash code ≡ true
      → IsActive c n db
      → (verify_code argon2 user channel code now db).0
        ≡ (if leb max_verification_attempts n then otp_max_attempts else verified)
  unfolding verify_code verify_active
  right-verified c n now code db time right e =
      elim (Bool-cases (leb max_verification_attempts n)) [
        | inl t ↦ rw (e, verify_code, verify_active, t) refl
        | inr t ↦
            let early : ltb c.expires_at now ≡ false = ground arith in
            rw (e, verify_code, verify_active, t, early, right) refl
      ]

  new-IsActive :
      (draw : Draw) (now : ℕ) (db : List (Challenge argon2))
      → All (λ c. is_open argon2 user channel c ≡ true → c.created_at ≤ now) db
      → let c = new_challenge argon2 user channel draw now in IsActive c 0 (insert c db)
  new-IsActive draw now db old =
      let c = new_challenge argon2 user channel draw now in
      let mine : is_open argon2 user channel c ≡ true = ground (arith, same_channel_refl channel) in
      rw (select-insert (is_open argon2 user channel) c db mine) (
        newest-insert (λ c. c.created_at) c (select (is_open argon2 user channel) db)
          (All-select_if (λ c. c.created_at ≤ now) (is_open argon2 user channel) db old))

  -- When a send creates a challenge, where every unused challenge of that user and channel is no newer
  -- than it, a verification of the code sent, no later than its expiry and after any
  -- number of wrong codes with no other send between, succeeds if the wrong codes were fewer than 5, and
  -- otherwise is refused for too many attempts.
  pub sent-verified :
      (draw : Draw) (now later : ℕ) (db db' : List (Challenge argon2)) {code : List ℕ}
      {expires_at seconds : ℕ} (wrong : List (List ℕ))
      → All (λ c. is_open argon2 user channel c ≡ true → c.created_at ≤ now) db
      → send argon2 user channel draw now db ≡ (sent code expires_at seconds, db')
      → later ≤ expires_at
      → All (λ g. argon2.verify (argon2.hash code draw.salt) g ≡ false) wrong
      → (verify_code argon2 user channel code later (verify_all wrong later db')).0
        ≡ (if ltb (length wrong) max_verification_attempts then verified else otp_max_attempts)
  sent-verified draw now later db db' {code} {expires_at} {seconds} wrong old e time w =
      elim (send-writes argon2 user channel draw now db) [
        | inl (s, k) ↦ cc
        | inr (k, rested, few) ↦
            let c = new_challenge argon2 user channel draw now in
            let rows : insert c db ≡ db' = cc in
            let text : generate_code draw.number ≡ code = cc in
            let until : now + otp_ttl_ms ≡ expires_at = cc in
            let tries =
              all_wrong-IsActive c later wrong 0 (insert c db) (omega arith) (omega arith)
                (subst (λ t. All (λ g. argon2.verify (argon2.hash t draw.salt) g ≡ false) wrong)
                  (sym text) w)
                (new-IsActive draw now db old) in
            rw (sym rows, sym text)
              (right-verified c _ later (generate_code draw.number) _ (omega arith)
                  (argon2.verify-hash (generate_code draw.number) draw.salt) tries
                ∙ ground arith)
      ]
