-- ===== src/Availability/Examples.antt =====
-- A user who starts a session, extends it and goes away.
use convene.Common.{
  ℕ, ◌+◌, ◌*◌, ◌≤◌, ◌<◌, ◌≡◌, refl, true, false, none, some, List, [], ◌∷◌, arith, count,
  find_first, ◌⊎◌,
}
use convene.Errors.{AppError, err}
use convene.Availability.{
  available_now, away, EndReason, Session, Db, is_id, is_available_now, can_transition, minute,
}
use convene.Availability.Repository.{
  find_expired_sessions, create_session, get_active_session, extend_session,
  find_sessions_expiring_within, find_active_available_now_sessions, set_session_state,
}
use convene.Availability.Schemas.{CreateSessionInput}
use convene.Availability.Mirrors.{mirror_to_redis}
use convene.Availability.Service.{extend, post_session, start, patch_extend}
use convene.Availability.Expiry.{
  Presence, absent, present, sweep_expired, tick, expire_each, warn_expiring_soon, warn_each, warn,
  check_presence_driven_transitions, check_presence_each, check_presence,
}
use convene.Availability.Consistency.{Sound, is_expired_event}
use convene.Availability.Extending.{Extensible, Refused}
use convene.Availability.Extending.Outcomes.{Extends, extend_lem}
use convene.Availability.History.{
  Request, posted, patched, key_expired, worker_ran, run, step, run-Sound, run-expired_once,
}
use convene.Availability.Sweep.Outcomes.{IsSpared, sweep_lem}
use convene.Availability.Unswept.{ticks, ticks-unswept}

abbrev empty : Db
empty = record {
  sessions = [];
  session_intents = [];
  live = [];
  profiles =
      record { user_id = 1; is_private = false; geohash5 = none; city_id = some 7 }
      ∷ record { user_id = 2; is_private = true; geohash5 = none; city_id = none }
      ∷ [];
  intents = record { id = 5; user_id = 1; active = true } ∷ [];
  mirrors = [];
  warned = [];
  events = [];
}

empty-Sound : Sound empty
unfolding Sound
empty-Sound = (tt, (λ u. ground arith), (λ u. refl), tt, (λ k. ground arith))

abbrev hour : CreateSessionInput
hour = record {
  state = available_now;
  duration_minutes = some 60;
  note = none;
  session_intent_ids = none;
  source = none;
}

abbrev inactive : ℕ → Presence
inactive user = present false 0

-- An hour, one extension, a run of the worker that sets the session away, and another after its
-- expiry.
abbrev requests : List Request
requests =
    posted 10 true 1 false hour 0
    ∷ posted 11 true 2 false hour 1000
    ∷ patched true 1 10 false 30 2000
    ∷ worker_ran inactive (20 * minute)
    ∷ []

run-Sound_example : Sound (run requests empty)
run-Sound_example = run-Sound requests empty empty-Sound

run-expired_once_example :
    count
      (is_expired_event 10)
      (run
        (posted 10 true 1 false hour 0
          ∷ worker_ran (λ _. absent) (100 * minute)
          ∷ key_expired 1 (100 * minute)
          ∷ [])
        empty).events
    ≤ 1
run-expired_once_example =
    run-expired_once
      (posted 10 true 1 false hour 0
        ∷ worker_ran (λ _. absent) (100 * minute)
        ∷ key_expired 1 (100 * minute)
        ∷ [])
      empty 10 empty-Sound

abbrev posted_hour : Db
posted_hour = run (posted 10 true 1 false hour 0 ∷ []) empty

posted_hour-Sound : Sound posted_hour
posted_hour-Sound = run-Sound (posted 10 true 1 false hour 0 ∷ []) empty empty-Sound

-- The session of an hour.
abbrev shown : Session
shown = record {
  id = 10;
  user_id = 1;
  state = available_now;
  started_at = 0;
  expires_at = some (60 * minute);
  ended_at = none;
  end_reason = none;
  duration_minutes = some 60;
  extensions_used = 0;
  note = none;
  source = none;
  matches_viewed = 0;
  requests_sent = 0;
  conversations_started = 0;
}

shown_found : find_first (is_id 10) posted_hour.sessions ≡ some shown
unfolding run step post_session start create_session mirror_to_redis get_active_session
    can_transition is_available_now
shown_found = refl

sweep_lem_example :
    let after = find_first (is_id 10) (sweep_expired (100 * minute) posted_hour).1.sessions in
    ((t : ℕ) × (shown.state ≡ available_now)
      × (shown.ended_at ≡ none)
      × (shown.expires_at ≡ some t)
      × (t < 100 * minute)
      × (after
          ≡ some (record shown {
            ended_at = some (100 * minute);
            end_reason = some EndReason.expired;
          })))
    ⊎ (IsSpared (100 * minute) shown × (after ≡ some shown))
sweep_lem_example = sweep_lem (100 * minute) 10 posted_hour shown posted_hour-Sound shown_found

-- The session after `requests`.
abbrev gone : Session
gone = record {
  id = 10;
  user_id = 1;
  state = away;
  started_at = 0;
  expires_at = some (90 * minute);
  ended_at = none;
  end_reason = none;
  duration_minutes = some 60;
  extensions_used = 1;
  note = none;
  source = none;
  matches_viewed = 0;
  requests_sent = 0;
  conversations_started = 0;
}

abbrev days_later : List ((ℕ → Presence) × ℕ)
days_later = (inactive, 1440 * minute) ∷ (inactive, 2880 * minute) ∷ []

gone_found : find_first (is_id 10) (run requests empty).sessions ≡ some gone
unfolding run step post_session start create_session mirror_to_redis get_active_session
    can_transition is_available_now patch_extend extend extend_session tick sweep_expired
    find_expired_sessions expire_each warn_expiring_soon warn_each find_sessions_expiring_within
    warn check_presence_driven_transitions find_active_available_now_sessions check_presence_each
    check_presence set_session_state
gone_found = refl

gone_away : is_available_now gone.state ≡ false
unfolding is_available_now
gone_away = refl

ticks-unswept_example :
    find_first (is_id 10) (ticks days_later (run requests empty)).sessions ≡ some gone
ticks-unswept_example =
    ticks-unswept days_later 10 gone (run requests empty) run-Sound_example gone_away gone_found

extend_lem_example :
    ((e : AppError) × Refused true 1 10 60 posted_hour e
      × (extend true 1 10 true 60 1000 posted_hour ≡ (err e, posted_hour)))
    ⊎ ((session : Session) × (expires : ℕ) × Extensible true 1 10 60 posted_hour session expires
        × Extends true 1 10
            (expires + 60 * 60000)
            1000
            posted_hour
            session
            (extend true 1 10 true 60 1000 posted_hour))
extend_lem_example = extend_lem true 1 10 true 60 1000 posted_hour
