-- ===== src/Availability/Expiry.antt =====
-- apps/api/src/modules/availability/availability-expiry.service.ts: sessions end when their time is
-- over or their user is gone, with the two mechanisms that call it, the sweeper of
-- apps/api/src/workers/availability-expiry.worker.ts and the listener of expired keys.
use convene.Common.{
  ℕ, ◌+◌, ◌-◌, ◌*◌, ◌/◌, Bool, not, ◌&&◌, none, some, List, [], ◌∷◌, ◌==◌, ltb, insert, any,
  if◌then◌else◌,
}
use convene.Errors.{M, ◌>>=◌, ◌>>◌, pure, gets, modify}
use convene.Availability.{
  available_now, away, EndReason, Session, Warned, Event, expired_event, expiring_soon, Db, minute,
}
use convene.Availability.Repository.{
  get_active_session, expire_session_by_id, find_expired_sessions, find_sessions_expiring_within,
  find_active_available_now_sessions, set_session_state,
}
use convene.Availability.Mirrors.{emit, emit_changed, del_mirror}

abbrev pub warning_window_ms : ℕ
warning_window_ms = 5 * minute

abbrev pub warning_dedupe_ttl_seconds : ℕ
warning_dedupe_ttl_seconds = 10 * 60

abbrev pub auto_away_inactivity_ms : ℕ
auto_away_inactivity_ms = 10 * minute

abbrev pub disconnect_grace_ms : ℕ
disconnect_grace_ms = 5 * minute

-- What presence:{user} holds: no key, a value that does not parse, or a presence.
pub data Presence : Type 0 where
  absent unreadable : Presence
  present : (active : Bool) → (last_beat : ℕ) → Presence

abbrev pub expired_of : Session → Event
expired_of s = expired_event s.user_id s.id s.matches_viewed s.requests_sent s.conversations_started

unfoldable pub expire_session : ℕ → ℕ → M Db (Unit {0})
expire_session id now = expire_session_by_id id now EndReason.expired >>= λ row. elim row [
  | none ↦ pure tt
  | some ended ↦
      modify (del_mirror ended.user_id)
      >> (modify (emit (expired_of ended)) >> modify (emit_changed ended.user_id none none))
]

unfoldable pub expire_by_user_id : ℕ → ℕ → M Db (Unit {0})
expire_by_user_id user now = gets (get_active_session user) >>= λ active. elim active [
  | none ↦ pure tt
  | some s ↦ expire_session s.id now
]

-- The loop of `sweepExpired`.
unfoldable pub expire_each : ℕ → List Session → M Db (Unit {0})
expire_each now [] = pure tt
expire_each now (s ∷ ss) = expire_session s.id now >> expire_each now ss

unfoldable pub sweep_expired : ℕ → M Db (Unit {0})
sweep_expired now = gets (find_expired_sessions now) >>= λ due. expire_each now due

abbrev pub is_warned : Session → ℕ → Warned → Bool
is_warned s now w = (w.user_id == s.user_id) && ((w.session_id == s.id) && ltb now w.until)

abbrev pub minutes_remaining : Session → ℕ → ℕ
minutes_remaining s now = elim s.expires_at [ none ↦ 0 | some t ↦ (t - now + 30000) / minute ]

abbrev pub with_warned : List Warned → Db → Db
with_warned warned db = record db { warned = warned }

-- One round of the loop of `warnExpiringSoon`.
unfoldable pub warn : ℕ → Session → Db → Db
warn now s db =
    if any (is_warned s now) db.warned
    then db
    else emit (expiring_soon s.user_id s.id (minutes_remaining s now)) (
        with_warned
          (insert
            (record {
              user_id = s.user_id;
              session_id = s.id;
              until = now + warning_dedupe_ttl_seconds * 1000;
            })
            db.warned)
          db)

unfoldable pub warn_each : ℕ → List Session → Db → Db
warn_each now [] db = db
warn_each now (s ∷ ss) db = warn_each now ss (warn now s db)

unfoldable pub warn_expiring_soon : ℕ → M Db (Unit {0})
warn_expiring_soon now = gets (find_sessions_expiring_within now warning_window_ms) >>= λ soon.
    modify (warn_each now soon)

unfoldable pub end_session_disconnected : ℕ → ℕ → M Db (Unit {0})
end_session_disconnected id now = expire_session_by_id id now EndReason.disconnected >>= λ row.
    elim row [
      | none ↦ pure tt
      | some ended ↦
          modify (del_mirror ended.user_id) >> modify (emit_changed ended.user_id none none)
    ]

-- One round of the loop of `checkPresenceDrivenTransitions`.
unfoldable pub check_presence : Presence → ℕ → Session → M Db (Unit {0})
check_presence absent now s =
    if ltb (s.started_at + disconnect_grace_ms) now
    then end_session_disconnected s.id now
    else pure tt
check_presence unreadable now s = pure tt
check_presence (present active last_beat) now s =
    if not active && ltb (last_beat + auto_away_inactivity_ms) now
    then (set_session_state s.id away now >>= λ _.
        modify (emit_changed s.user_id (some away) s.expires_at))
    else pure tt

unfoldable pub check_presence_each : (ℕ → Presence) → ℕ → List Session → M Db (Unit {0})
check_presence_each presence now [] = pure tt
check_presence_each presence now (s ∷ ss) =
    check_presence (presence s.user_id) now s >> check_presence_each presence now ss

unfoldable pub check_presence_driven_transitions : (ℕ → Presence) → ℕ → M Db (Unit {0})
check_presence_driven_transitions presence now =
    gets find_active_available_now_sessions >>= λ sessions.
    check_presence_each presence now sessions

unfoldable pub recover_from_away : ℕ → ℕ → M Db (Unit {0})
recover_from_away id now = set_session_state id available_now now >>= λ row. elim row [
  | none ↦ pure tt
  | some s ↦ modify (emit_changed s.user_id (some available_now) s.expires_at)
]

-- One run of the worker's job.
unfoldable pub tick : (ℕ → Presence) → ℕ → M Db (Unit {0})
tick presence now =
    sweep_expired now >> (warn_expiring_soon now >> check_presence_driven_transitions presence now)
