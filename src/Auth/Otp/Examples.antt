-- ===== src/Auth/Otp/Examples.antt =====
-- Runs of the one-time codes with a hash that keeps its argument.
use convene.Common.{ℕ, ◌≤◌, ◌≡◌, refl, Bool, true, false, ◌&&◌, List, [], ◌∷◌, ◌==◌, arith}
use convene.Auth.Otp.{
  Argon2, email, Draw, Challenge, verified, send, verify_code, verify_active, generate_code,
}
use convene.Auth.Otp.History.{
  OtpCall, send_call, verify_call, after, after_all, sent_in, verified_in, sent_by, verified_by,
}
use convene.Auth.Otp.Limits.{IsLimited, after_all-IsLimited}
use convene.Auth.Otp.Uses.{verified_in-le-sent_in}
use convene.Auth.Otp.Codes.{verify_all, sent-verified}

abbrev same_text : List ℕ → List ℕ → Bool
same_text [] [] = true
same_text [] (y ∷ ys) = false
same_text (x ∷ xs) [] = false
same_text (x ∷ xs) (y ∷ ys) = x == y && same_text xs ys

same_text_refl : (xs : List ℕ) → same_text xs xs ≡ true
same_text_refl [] = refl
same_text_refl (x ∷ xs) = ground (arith, same_text_refl xs)

abbrev plain : Argon2
plain = record {
  Hash = List ℕ;
  hash = λ code salt. code;
  verify = same_text;
  verify-hash = λ code salt. same_text_refl code;
}

abbrev draw : ℕ → Draw
draw n = record { id = n; number = n; salt = 0 }

-- Two sends, one of them refused, a wrong code, the right one and the right one again.
abbrev calls : List OtpCall
calls =
    send_call 7 email (draw 123456) 1000
    ∷ send_call 7 email (draw 222222) 30000
    ∷ verify_call 7 email (48 ∷ []) 31000
    ∷ verify_call 7 email (49 ∷ 50 ∷ 51 ∷ 52 ∷ 53 ∷ 54 ∷ []) 32000
    ∷ verify_call 7 email (49 ∷ 50 ∷ 51 ∷ 52 ∷ 53 ∷ 54 ∷ []) 33000
    ∷ send_call 7 email (draw 333333) 90000
    ∷ []

calls_sent : sent_in plain calls [] ≡ 2
unfolding sent_in sent_by after send verify_code verify_active generate_code
calls_sent = refl

calls_verified : verified_in plain calls [] ≡ 1
unfolding verified_in verified_by after send verify_code verify_active generate_code
calls_verified = refl

after_all-IsLimited_example : IsLimited plain 7 email 500 (after_all plain calls [])
after_all-IsLimited_example = after_all-IsLimited plain 7 email 500 calls

verified_in-le-sent_in_example : verified_in plain calls [] ≤ sent_in plain calls []
verified_in-le-sent_in_example = verified_in-le-sent_in plain calls

abbrev after_send : List (Challenge plain)
after_send = (send plain 7 email (draw 123456) 1000 []).1

sent-verified_example :
    (verify_code plain 7 email
      (generate_code 123456)
      601000
      (verify_all plain 7 email ((48 ∷ []) ∷ []) 601000 after_send)).0
    ≡ verified
unfolding send generate_code
sent-verified_example =
    sent-verified plain 7 email (draw 123456) 1000 601000 [] after_send {expires_at = 601000}
      {seconds = 60} ((48 ∷ []) ∷ []) tt refl (omega arith) (refl, tt)
