-- ===== src/Availability/Schemas.antt =====
-- The limits and the request shapes of sessions (packages/validation/src/availability.ts and
-- common.ts, and the constants of availability.service.ts).
use convene.Common.{
  ℕ, Bool, true, false, not, ◌&&◌, ◌||◌, Option, none, some, List, [], ◌∷◌, ◌==◌, leb, any, length,
  is_some,
}
use convene.Errors.{app_error, AppError, ErrorCode, ErrorClass}
use convene.Availability.{ActivatableState, is_available_now}

abbrev pub free_max_duration_minutes : ℕ
free_max_duration_minutes = 120

abbrev pub cumulative_cap_minutes : ℕ
cumulative_cap_minutes = 240

abbrev pub max_extensions : ℕ
max_extensions = 3

pub record CreateSessionInput : Type 0 where
  pub state : ActivatableState
  pub duration_minutes : Option ℕ
  pub note : Option (List ℕ)
  pub session_intent_ids : Option (List ℕ)
  pub source : Option (List ℕ)

abbrev pub contains : List ℕ → ℕ → Bool
contains ids id = any (λ x. x == id) ids

-- `durationMinutesSchema(isPremium)`.
abbrev pub duration_minutes_schema : Bool → ℕ → Bool
duration_minutes_schema true d = leb 1 d && leb d 240
duration_minutes_schema false d = contains (15 ∷ 30 ∷ 60 ∷ 120 ∷ []) d

abbrev pub optionally : {A : Type 0} → (A → Bool) → Option A → Bool
optionally p none = true
optionally p (some a) = p a

-- `createSessionSchema(isPremium)`, less the rule on the text of the note, which does not depend on
-- the plan.
abbrev pub create_session_schema : Bool → CreateSessionInput → Bool
create_session_schema premium input =
    optionally (duration_minutes_schema premium) input.duration_minutes
    && (optionally (λ ids. leb (length ids) 5) input.session_intent_ids
        && (not (is_available_now input.state) || is_some input.duration_minutes))

-- `extendSessionSchema`.
abbrev pub extend_session_schema : ℕ → Bool
extend_session_schema additional = contains (15 ∷ 30 ∷ 60 ∷ []) additional

abbrev pub validation_failed : AppError
validation_failed = app_error ErrorClass.validation_app_error ErrorCode.validation_failed
