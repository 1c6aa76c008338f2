-- ===== src/Availability/Service.antt =====
-- apps/api/src/modules/availability/availability.service.ts: a user starts, extends and ends a
-- session. One request reads the clock once. The preview of matches, which createSession computes
-- last and which writes nothing, is left out.
use convene.Common.{
  ℕ, ◌+◌, ◌-◌, ◌*◌, ◌/◌, Bool, true, not, ◌&&◌, Option, none, some, List, [], map, ◌==◌, ltb, leb,
  select, find_first, any, is_some, or_else, if◌then◌else◌,
}
use convene.Errors.{
  M, ◌>>=◌, ◌>>◌, pure, throw_if, or_throw, gets, modify, app_error, AppError, ErrorCode,
  ErrorClass,
}
use convene.Availability.{
  ActivatableState, FromState, offline, in_state, can_transition, is_available_now, EndReason,
  Session, Profile, Db, minute, is_id, is_of,
}
use convene.Availability.Repository.{
  CreateSessionParams, get_active_session, create_session, extend_session, end_session,
}
use convene.Availability.Schemas.{
  free_max_duration_minutes, cumulative_cap_minutes, max_extensions, CreateSessionInput, contains,
  create_session_schema, extend_session_schema, validation_failed,
}
use convene.Availability.Mirrors.{del_mirror, emit_changed, mirror_to_redis}

pub record SessionResponse : Type 0 where
  pub id : ℕ
  pub state : ActivatableState
  pub started_at : ℕ
  pub expires_at : Option ℕ
  pub duration_minutes : Option ℕ
  pub extensions_used : ℕ
  pub extensions_remaining : ℕ
  pub note : Option (List ℕ)
  pub session_intents : List ℕ

abbrev pub to_session_response : Session → List ℕ → SessionResponse
to_session_response session ids = record {
  id = session.id;
  state = session.state;
  started_at = session.started_at;
  expires_at = session.expires_at;
  duration_minutes = session.duration_minutes;
  extensions_used = session.extensions_used;
  extensions_remaining = max_extensions - session.extensions_used;
  note = session.note;
  session_intents = ids;
}

-- The ids of `intentsService.listIntents(user, false)`.
abbrev pub active_intent_ids : ℕ → Db → List ℕ
active_intent_ids user db =
    map (λ i. i.id) (select (λ i. (i.user_id == user) && i.active) db.intents)

abbrev pub session_intent_ids : ℕ → Db → List ℕ
session_intent_ids session db =
    map (λ i. i.intent_id) (select (λ i. i.session_id == session) db.session_intents)

abbrev pub from_state : Option Session → FromState
from_state none = offline
from_state (some s) = in_state s.state

abbrev pub premium_required : AppError
premium_required = app_error ErrorClass.payment_required_app_error ErrorCode.premium_required

-- The checks of the duration, made for `available_now` with a duration only.
abbrev pub check_duration : Bool → CreateSessionInput → M Db (Unit {0})
check_duration premium input = elim input.duration_minutes [
  | none ↦ pure tt
  | some d ↦
      if is_available_now input.state
      then throw_if (not premium && ltb free_max_duration_minutes d) premium_required
        >> throw_if (not (create_session_schema premium input)) validation_failed
      else pure tt
]

abbrev pub duration_of : CreateSessionInput → Option ℕ
duration_of input = if is_available_now input.state then input.duration_minutes else none

abbrev pub params_of : ℕ → CreateSessionInput → Profile → List ℕ → ℕ → CreateSessionParams
params_of user input profile ids now = record {
  user_id = user;
  state = input.state;
  duration_minutes = duration_of input;
  expires_at = elim (duration_of input) [ none ↦ none | some d ↦ some (now + d * minute) ];
  note = input.note;
  source = input.source;
  intent_ids = ids;
  geohash5 = profile.geohash5;
  city_id = profile.city_id;
  now = now;
}

abbrev pub profile_not_found : AppError
profile_not_found = app_error ErrorClass.not_found_app_error ErrorCode.profile_not_found

abbrev pub profile_private : AppError
profile_private = app_error ErrorClass.forbidden_app_error ErrorCode.profile_private

abbrev pub invalid_transition : AppError
invalid_transition = app_error ErrorClass.conflict_app_error ErrorCode.invalid_state_transition

abbrev pub bad_intent : AppError
bad_intent = app_error ErrorClass.bad_request_app_error ErrorCode.bad_request

-- `AvailabilityService.createSession`; `premium` is `plan !== "free"`, and `written` tells whether
-- Redis took the mirror.
unfoldable pub start : ℕ → Bool → ℕ → Bool → CreateSessionInput → ℕ → M Db SessionResponse
start id written user premium input now =
    check_duration premium input
    >> (gets (λ db. find_first (λ p. p.user_id == user) db.profiles) >>= λ found.
        or_throw found profile_not_found >>= λ profile.
        throw_if profile.is_private profile_private
        >> (gets (get_active_session user) >>= λ active.
            throw_if (not (can_transition (from_state active) input.state)) invalid_transition
            >> (gets (active_intent_ids user) >>= λ intents.
                throw_if (any (λ i. not (contains intents i)) (or_else input.session_intent_ids []))
                  bad_intent
                >> (let ids = or_else input.session_intent_ids intents in
                    create_session id (params_of user input profile ids now) >>= λ created.
                    modify (mirror_to_redis written user created ids now)
                    >> (modify (emit_changed user (some created.state) created.expires_at)
                        >> pure (to_session_response created ids))))))

-- POST sessions of the controller: the pipe checks the widest shape first.
unfoldable pub post_session : ℕ → Bool → ℕ → Bool → CreateSessionInput → ℕ → M Db SessionResponse
post_session id written user premium input now =
    throw_if (not (create_session_schema true input)) validation_failed
    >> start id written user premium input now

abbrev pub session_not_found : AppError
session_not_found = app_error ErrorClass.not_found_app_error ErrorCode.session_not_found

abbrev pub already_ended : AppError
already_ended = app_error ErrorClass.conflict_app_error ErrorCode.session_already_ended

abbrev pub only_available : AppError
only_available = app_error ErrorClass.bad_request_app_error ErrorCode.bad_request

abbrev pub max_reached : AppError
max_reached = app_error ErrorClass.conflict_app_error ErrorCode.max_extensions_reached

abbrev pub get_owned_session : ℕ → ℕ → M Db Session
get_owned_session user id =
    gets (λ db. find_first (λ s. is_id id s && is_of user s) db.sessions) >>= λ found.
    or_throw found session_not_found

-- `AvailabilityService.extendSession`; the totals are compared in milliseconds.
unfoldable pub extend : Bool → ℕ → ℕ → Bool → ℕ → ℕ → M Db SessionResponse
extend written user id premium additional now = get_owned_session user id >>= λ session.
    throw_if (is_some session.ended_at) already_ended
    >> (throw_if (not (is_available_now session.state)) only_available
        >> (or_throw session.expires_at only_available >>= λ expires.
            throw_if (leb max_extensions session.extensions_used) max_reached
            >> (let total = expires + additional * minute in
                throw_if (ltb (session.started_at + cumulative_cap_minutes * minute) total)
                  max_reached
                >> (throw_if
                      (not premium
                        && ltb (session.started_at + free_max_duration_minutes * minute) total)
                      premium_required
                    >> (extend_session id user total now >>= λ row.
                        or_throw row session_not_found >>= λ updated.
                        gets (session_intent_ids id) >>= λ ids.
                        modify (mirror_to_redis written user updated ids now)
                        >> (modify (emit_changed user (some updated.state) updated.expires_at)
                            >> pure (to_session_response updated ids)))))))

-- PATCH sessions/:id/extend of the controller.
unfoldable pub patch_extend : Bool → ℕ → ℕ → Bool → ℕ → ℕ → M Db SessionResponse
patch_extend written user id premium additional now =
    throw_if (not (extend_session_schema additional)) validation_failed
    >> extend written user id premium additional now

pub record EndSessionSummary : Type 0 where
  pub matches_viewed : ℕ
  pub requests_sent : ℕ
  pub conversations_started : ℕ
  pub duration_actual_minutes : ℕ

-- `AvailabilityService.endSession`; the minutes are `Math.round` of the time since the start.
unfoldable pub end : ℕ → ℕ → ℕ → M Db EndSessionSummary
end user id now = get_owned_session user id >>= λ session.
    throw_if (is_some session.ended_at) already_ended
    >> (end_session id user now EndReason.manual >>= λ row.
        or_throw row session_not_found >>= λ ended.
        modify (del_mirror user)
        >> (modify (emit_changed user none none)
            >> pure (record {
              matches_viewed = ended.matches_viewed;
              requests_sent = ended.requests_sent;
              conversations_started = ended.conversations_started;
              duration_actual_minutes = (now - ended.started_at + 30000) / minute;
            })))

-- `AvailabilityService.getCurrent`.
unfoldable pub get_current : ℕ → Db → Option SessionResponse
get_current user db = elim (get_active_session user db) [
  | none ↦ none
  | some s ↦ some (to_session_response s (session_intent_ids s.id db))
]
