-- ===== src/Connections/Sending.antt =====
-- connections.service.ts: what `sendRequest` takes, reads, answers and throws. The tables of other
-- modules that it reads are `Facts`. The children have its checks and its steps, and what they prove.
pub mod Checks
pub mod Flow
pub mod Steps
pub mod Limits
pub mod Admission
pub mod Once
pub mod Outcomes
pub mod Exact
pub mod Allowed
pub mod Complete
pub mod Retries
pub mod Refusal
pub mod MutualPairs
pub mod Answering
pub mod History
pub mod Final
mod Examples
use convene.Common.{
  ℕ, zero, suc, ◌+◌, ◌-◌, ◌*◌, Bool, true, false, not, ◌&&◌, ◌||◌, Option, none, some, List, ◌==◌,
  find_first, insert, is_some, is_none, or_else, ceil_seconds, if◌then◌else◌,
}
use convene.Errors.{
  M, ok, err, AppError, pure, throw, throw_if, or_throw, modify, gets, ◌>>=◌, ◌>>◌, app_error,
  app_error_retry, ErrorClass, ErrorCode, Result,
}
use convene.Infra.Redis.{Redis}
use convene.Infra.Redis.Counters.{Counters}
use convene.Matching.Gates.{check_intent_floor}
use convene.RateLimit.Window.{SortedSets}
use convene.TrustSafety.{UserStatus}
use convene.TrustSafety
use convene.Connections.{Request, Db, is_pending_between, is_pending}
use convene.Connections.Requests.{
  CreateConnectionRequestInput, Draw, create_request, is_blocked_either_way,
  find_active_connection_between,
}
use convene.Connections.Service.{notify, pair_blocked}
use convene.Connections.Cooldown.{assert_no_cooldown}
use convene.Connections.Inbound.{
  InboundIntentFilter, InboundCheckFacts, check_inbound, effective_cap, resolve_inbound_throttle,
}
use convene.Connections.Mutual.{MutualAccept, accept_mutual_requests}
use convene.Connections.Quota.{
  ConnectionPlan, DailyQuota, CheckedQuota, check_daily_quota, check_velocity, is_soft_blocked,
  apply_soft_block,
}
use convene.Connections.Quota.Notes.{HistoryEntry, record_note_and_check_duplicate}

pub record SendConnectionRequestInput : Type 0 where
  pub recipient_id : ℕ
  pub intent_id : ℕ
  pub note : Option (List ℕ)
  pub match_score : Option ℕ

pub record ScoringFields : Type 0 where
  pub years_experience : ℕ
  pub industry_id : Option ℕ
  pub verification_level : ℕ

-- What a call reads of the users, their intents, profiles, filters and reputation, and of the platform.
-- The score of two users' intents is that of the matching package, in hundredths.
pub record Facts : Type 0 where
  pub user_status : ℕ → Option UserStatus
  pub owned_active_intent : ℕ → ℕ → Option ℕ
  pub intent_score : ℕ → ℕ → ℕ
  pub inbound_filter : ℕ → Option InboundIntentFilter
  pub scoring_fields : ℕ → Option ScoringFields
  pub reputation : ℕ → ℕ
  pub local_date : ℕ → ℕ → List ℕ
  pub id_text : ℕ → List ℕ
  pub lower : List ℕ → List ℕ

-- What one call draws: ids of rows, and the member of the sliding window.
pub record SendDraw : Type 0 where
  pub rows : Draw
  pub member : ℕ

pub record SendConnectionRequestResult : Type 0 where
  pub status : ℕ
  pub request : Request
  pub quota : DailyQuota
  pub queued_position : Option ℕ

abbrev pub bad_recipient : AppError
bad_recipient = app_error ErrorClass.bad_request_app_error ErrorCode.bad_request

abbrev pub recipient_not_found : AppError
recipient_not_found = app_error ErrorClass.not_found_app_error ErrorCode.not_found

abbrev pub intent_not_found : AppError
intent_not_found = app_error ErrorClass.not_found_app_error ErrorCode.intent_not_found

abbrev pub already_connected : AppError
already_connected = app_error ErrorClass.conflict_app_error ErrorCode.already_connected

abbrev pub already_pending : AppError
already_pending = app_error ErrorClass.conflict_app_error ErrorCode.request_already_pending

abbrev pub intent_mismatch : AppError
intent_mismatch = app_error ErrorClass.forbidden_app_error ErrorCode.intent_mismatch

abbrev pub intent_filtered : AppError
intent_filtered = app_error ErrorClass.forbidden_app_error ErrorCode.intent_filtered

abbrev pub velocity_limit : ℕ → AppError
velocity_limit seconds =
    app_error_retry ErrorClass.too_many_requests_app_error ErrorCode.velocity_limit seconds

abbrev pub daily_limit_reached : ℕ → AppError
daily_limit_reached seconds =
    app_error_retry ErrorClass.too_many_requests_app_error ErrorCode.daily_limit_reached seconds

abbrev pub is_active_user : Option UserStatus → Bool
is_active_user none = false
is_active_user (some TrustSafety.active) = true
is_active_user (some _) = false

-- A sender without a profile counts as one without experience.
abbrev pub check_facts : ℕ → Option ScoringFields → InboundCheckFacts
check_facts intent none = record {
  intent_type = intent;
  years_experience = 0;
  industry_id = none;
  verification_level = 0;
}
check_facts intent (some f) = record {
  intent_type = intent;
  years_experience = f.years_experience;
  industry_id = f.industry_id;
  verification_level = f.verification_level;
}

abbrev pub years_of : Option ScoringFields → ℕ
years_of none = 0
years_of (some f) = f.years_experience

abbrev pub cap_of : Option InboundIntentFilter → Option ℕ
cap_of none = none
cap_of (some f) = f.max_inbound_per_day

abbrev pub create_input : ℕ → SendConnectionRequestInput → Bool → CreateConnectionRequestInput
create_input sender input queued = record {
  sender_id = sender;
  recipient_id = input.recipient_id;
  intent_id = some input.intent_id;
  note = input.note;
  match_score = input.match_score;
  is_queued = queued;
}
