-- ===== src/Errors.antt =====
-- apps/api/src/common/errors: the registry of error codes (error-codes.ts) and the error classes
-- (app-error.ts), with the monad of a service method: it reads and writes a state, and returns a
-- value or throws. A write that was made before a throw stays, except inside `transaction`.
use convene.Common.{
  ℕ, ◌≡◌, refl, sym, subst, ◌⊎◌, inl, inr, Bool, true, false, Option, none, some, if◌then◌else◌,
}

pub data ErrorCode : Type 0 where
  bad_request unauthorized forbidden not_found conflict gone validation_failed : ErrorCode
  too_many_requests internal_error intent_floor_not_met match_not_found : ErrorCode
  not_conversation_member conversation_frozen blocked awaiting_reply : ErrorCode
  message_rate_limit moderation_rejected attachment_too_large unsupported_media_type : ErrorCode
  message_deleted edit_window_expired conversation_not_found email_already_exists : ErrorCode
  phone_already_exists age_restricted password_breached invalid_credentials : ErrorCode
  account_locked account_suspended otp_invalid otp_expired otp_max_attempts : ErrorCode
  otp_rate_limited token_expired token_used invalid_refresh_token : ErrorCode
  token_reuse_detected session_not_found verification_required policy_denied : ErrorCode
  oauth_state_invalid oauth_provider_unknown profile_not_found etag_mismatch : ErrorCode
  name_change_limit work_email_domain_mismatch plan_limit_reached duplicate_intent : ErrorCode
  intent_prerequisite_unmet intent_not_found intent_filtered intent_mismatch : ErrorCode
  geocode_failed location_update_too_frequent max_extensions_reached : ErrorCode
  session_already_ended premium_required profile_private invalid_state_transition : ErrorCode
  schedule_overlap schedule_not_found request_already_pending already_connected : ErrorCode
  daily_limit_reached velocity_limit recipient_throttled cooldown_active : ErrorCode
  request_not_found category_not_configurable device_not_found query_too_short : ErrorCode
  premium_filter_required search_rate_limit report_not_found : ErrorCode
  moderation_action_not_found appeal_not_found policy_clause_required : ErrorCode
  appeal_reviewer_conflict action_not_pending_approval ban_approval_same_admin : ErrorCode
  already_approved audit_log_immutable ai_quota_exceeded ai_abuse_limit : ErrorCode
  ai_feature_unavailable ai_output_rejected no_previous_weights_config : ErrorCode

-- The subclasses of `AppError`.
pub data ErrorClass : Type 0 where
  bad_request_app_error unauthorized_app_error forbidden_app_error : ErrorClass
  not_found_app_error conflict_app_error payment_required_app_error : ErrorClass
  gone_app_error locked_app_error validation_app_error : ErrorClass
  too_many_requests_app_error internal_app_error : ErrorClass

pub http_status : ErrorClass → ℕ
http_status bad_request_app_error = 400
http_status unauthorized_app_error = 401
http_status forbidden_app_error = 403
http_status not_found_app_error = 404
http_status conflict_app_error = 409
http_status payment_required_app_error = 402
http_status gone_app_error = 410
http_status locked_app_error = 423
http_status validation_app_error = 422
http_status too_many_requests_app_error = 429
http_status internal_app_error = 500

-- The message, the field and the details are texts for the client, and are left out.
pub record AppError : Type 0 where
  pub class : ErrorClass
  pub code : ErrorCode
  pub retry_after : Option ℕ

abbrev pub app_error : ErrorClass → ErrorCode → AppError
app_error k c = record { class = k; code = c; retry_after = none }

abbrev pub app_error_retry : ErrorClass → ErrorCode → ℕ → AppError
app_error_retry k c after = record { class = k; code = c; retry_after = some after }

pub data Result {ℓ} (A : Type ℓ) : Type ℓ where
  ok : A → Result A
  err : AppError → Result A

abbrev pub M : Type 0 → Type 0 → Type 0
M S A = S → Result A × S

infixl 5 ◌>>=◌ ◌>>◌
abbrev pub ◌>>=◌ : {S A B : Type 0} → M S A → (A → M S B) → M S B
◌>>=◌ m f s = let (r, s') = m s in elim r [ ok a ↦ f a s' | err e ↦ (err e, s') ]

abbrev pub ◌>>◌ : {S B : Type 0} → M S (Unit {0}) → M S B → M S B
m >> k = m >>= λ _. k

abbrev pub pure : {S A : Type 0} → A → M S A
pure a s = (ok a, s)

abbrev pub throw : {S A : Type 0} → AppError → M S A
throw e s = (err e, s)

-- `if (failed) throw e`.
abbrev pub throw_if : {S : Type 0} → Bool → AppError → M S (Unit {0})
throw_if true e s = (err e, s)
throw_if false e s = (ok tt, s)

-- `if (!row) throw e`, and the row.
abbrev pub or_throw : {S A : Type 0} → Option A → AppError → M S A
or_throw none e s = (err e, s)
or_throw (some a) e s = (ok a, s)

abbrev pub gets : {S A : Type 0} → (S → A) → M S A
gets f s = (ok (f s), s)

abbrev pub modify : {S : Type 0} → (S → S) → M S (Unit {0})
modify f s = (ok tt, f s)

-- `db.transaction`: a throw inside takes every write back.
abbrev pub transaction : {S A : Type 0} → M S A → M S A
transaction m s = let (r, s') = m s in elim r [ ok a ↦ (ok a, s') | err e ↦ (err e, s) ]

-- How a call ends.
pub Result-cases :
    {S A : Type 0} (r : Result A × S)
    → ((e : AppError) × (r ≡ (err e, r.1))) ⊎ ((a : A) × (r ≡ (ok a, r.1)))
Result-cases (err e, s) = inl (e, refl)
Result-cases (ok a, s) = inr (a, refl)

-- A method that keeps a property of the state, whether it returns or throws.
abbrev pub Keeps {ℓ} : {S A : Type 0} → (S → Type ℓ) → M S A → Type ℓ
Keeps {S} P m = (s : S) → P s → P (m s).1

module _ {ℓ} {S : Type 0} (P : S → Type ℓ) where
  pub >>=-Keeps :
      {A B : Type 0} (m : M S A) (f : A → M S B)
      → Keeps P m
      → ((a : A) → Keeps P (f a))
      → Keeps P (m >>= f)
  >>=-Keeps {A} {B} m f h k s p = go (m s) (h s p)
    where
      go :
          (r : Result A × S)
          → P r.1
          → P
              (let next : Result B × S = elim r.0 [ ok a ↦ f a r.1 | err e ↦ (err e, r.1) ] in
                next).1
      go (ok a, t) q = k a t q
      go (err e, t) q = q

  pub pure-Keeps : {A : Type 0} (a : A) → Keeps P (pure a)
  pure-Keeps a s p = p

  pub throw_if-Keeps : (b : Bool) (e : AppError) → Keeps P (throw_if b e)
  throw_if-Keeps true e s p = p
  throw_if-Keeps false e s p = p

  pub or_throw-Keeps : {A : Type 0} (o : Option A) (e : AppError) → Keeps P (or_throw o e)
  or_throw-Keeps none e s p = p
  or_throw-Keeps (some a) e s p = p

  pub gets-Keeps : {A : Type 0} (f : S → A) → Keeps P (gets f)
  gets-Keeps f s p = p

  pub if-Keeps :
      {A : Type 0} (b : Bool) (m n : M S A) → Keeps P m → Keeps P n → Keeps P (if b then m else n)
  if-Keeps true m n h k = h
  if-Keeps false m n h k = k

-- Rules that split on a guard at the head of a method, for any property of the outcome.
module _ {ℓ} {S B : Type 0} (P : Result B × S → Type ℓ) where
  pub throw_if-cases :
      (b : Bool) (e : AppError) (k : M S B) (s : S)
      → (b ≡ true → P (err e, s))
      → (b ≡ false → P (k s))
      → P ((throw_if b e >> k) s)
  throw_if-cases true e k s h g = h refl
  throw_if-cases false e k s h g = g refl

  pub or_throw-cases :
      {A : Type 0} (o : Option A) (e : AppError) (k : A → M S B) (s : S)
      → (o ≡ none → P (err e, s))
      → ((a : A) → o ≡ some a → P (k a s))
      → P ((or_throw o e >>= k) s)
  or_throw-cases none e k s h g = h refl
  or_throw-cases (some a) e k s h g = g a refl

  pub if-cases :
      (b : Bool) (m n : M S B) (s : S)
      → (b ≡ true → P (m s))
      → (b ≡ false → P (n s))
      → P ((if b then m else n) s)
  if-cases true m n s h g = h refl
  if-cases false m n s h g = g refl

  -- A check that only reads, at the head of a method.
  pub guard-cases :
      (m : M S (Unit {0})) (k : M S B) (s : S)
      → (m s).1 ≡ s
      → ((e : AppError) → P (err e, s))
      → ((m s).0 ≡ ok tt → P (k s))
      → P ((m >> k) s)
  guard-cases m k s same h g = go (m s) same g
    where
      go :
          (r : Result (Unit {0}) × S)
          → r.1 ≡ s
          → (r.0 ≡ ok tt → P (k s))
          → P (let next : Result B × S = elim r.0 [ ok a ↦ k r.1 | err e ↦ (err e, r.1) ] in next)
      go (ok a, t) q f = subst (λ x. P (k x)) (sym q) (f refl)
      go (err e, t) q f = subst (λ x. P (err e, x)) (sym q) (h e)

-- A rule for a method that starts with another, for any property of the outcome.
module _ {ℓ} {S A B : Type 0} (P : Result B × S → Type ℓ) where
  pub bind-cases :
      (m : M S A) (k : A → M S B) (s : S)
      → ((e : AppError) (t : S) → m s ≡ (err e, t) → P (err e, t))
      → ((a : A) (t : S) → m s ≡ (ok a, t) → P (k a t))
      → P ((m >>= k) s)
  bind-cases m k s h g = go (m s) (h) (g)
    where
      go :
          (r : Result A × S)
          → ((e : AppError) (t : S) → r ≡ (err e, t) → P (err e, t))
          → ((a : A) (t : S) → r ≡ (ok a, t) → P (k a t))
          → P (let next : Result B × S = elim r.0 [ ok a ↦ k a r.1 | err e ↦ (err e, r.1) ] in next)
      go (ok a, t) h g = g a t refl
      go (err e, t) h g = h e t refl
