-- ===== src/Availability/History.antt =====
-- Any sequence of requests, expiries and presence checks (availability.service.ts,
-- availability-expiry.service.ts, availability-keyspace-listener.service.ts).
use convene.Common.{
  ℕ, ◌+◌, ◌*◌, ◌≤◌, ◌≡◌, refl, inl, inr, Bool, true, not, none, some, List, [], ◌∷◌, arith,
  Bool-cases, Option-cases, insert, any, count, count-key, count_mono,
}
use convene.Errors.{Result-cases, ok, Keeps, throw_if, throw_if-Keeps, ◌>>◌, >>=-Keeps}
use convene.Availability.{away, available_now, EndReason, Session, expiring_soon, Db, Warned, is_id}
use convene.Availability.Repository.{
  get_active_session, find_expired_sessions, find_active_available_now_sessions,
  expire_session_by_id, set_session_state,
}
use convene.Availability.Schemas.{
  CreateSessionInput, create_session_schema, extend_session_schema, validation_failed,
}
use convene.Availability.Service.{post_session, patch_extend, end, start, extend}
use convene.Availability.Expiry.{
  Presence, absent, unreadable, present, expire_session, expire_by_user_id, expire_each,
  sweep_expired, warn, warn_each, warn_expiring_soon, end_session_disconnected, check_presence,
  check_presence_each, is_warned, with_warned, warning_dedupe_ttl_seconds, minutes_remaining,
  check_presence_driven_transitions, recover_from_away, tick,
}
use convene.Availability.Consistency.{
  Sound, is_expired_event, is_over, expire_session_by_id-Sound, set_session_state-Sound,
}
use convene.Availability.Ending.{
  del_mirror-Sound, emit-Sound, expire_session-Sound, Sound-Distinct, told_of,
}
use convene.Availability.Starting.{start-Sound, end-Sound, emit_changed-Sound}
use convene.Availability.Extending.Capped.{extend-Sound}

post_session-Sound :
    (id : ℕ) (written : Bool) (user : ℕ) (premium : Bool) (input : CreateSessionInput) (now : ℕ)
    → Keeps Sound (post_session id written user premium input now)
unfolding post_session
post_session-Sound id written user premium input now =
    >>=-Keeps Sound (throw_if (not (create_session_schema true input)) validation_failed)
      (λ _. start id written user premium input now) (throw_if-Keeps Sound _ _)
      (λ _. start-Sound id written user premium input now)

patch_extend-Sound :
    (written : Bool) (user id : ℕ) (premium : Bool) (additional now : ℕ)
    → Keeps Sound (patch_extend written user id premium additional now)
unfolding patch_extend
patch_extend-Sound written user id premium additional now =
    >>=-Keeps Sound (throw_if (not (extend_session_schema additional)) validation_failed)
      (λ _. extend written user id premium additional now) (throw_if-Keeps Sound _ _)
      (λ _. extend-Sound written user id premium additional now)

expire_by_user_id-Sound : (user now : ℕ) → Keeps Sound (expire_by_user_id user now)
unfolding expire_by_user_id
expire_by_user_id-Sound user now db h = elim (Option-cases (get_active_session user db)) [
  | inl e ↦ ground arith
  | inr (s, e) ↦ let after = expire_session-Sound s.id now db h in ground arith
]

pub expire_session-ok : (id now : ℕ) (db : Db) → (expire_session id now db).0 ≡ ok tt
unfolding expire_session expire_session_by_id
expire_session-ok id now db = ground arith

expire_each-Sound : (now : ℕ) (due : List Session) → Keeps Sound (expire_each now due)
unfolding expire_each
expire_each-Sound now [] db h = h
expire_each-Sound now (s ∷ ss) db h =
    let after = expire_session-Sound s.id now db h in
    let rest = expire_each-Sound now ss (expire_session s.id now db).1 after in
    let fine = expire_session-ok s.id now db in ground arith

pub sweep_expired-Sound : (now : ℕ) → Keeps Sound (sweep_expired now)
unfolding sweep_expired
sweep_expired-Sound now db h = expire_each-Sound now (find_expired_sessions now db) db h

with_warned-Sound : (rows : List Warned) (db : Db) → Sound db → Sound (with_warned rows db)
unfolding Sound
with_warned-Sound rows db h = h

warn-Sound : (now : ℕ) (s : Session) (db : Db) → Sound db → Sound (warn now s db)
unfolding warn
warn-Sound now s db h =
    let row : Warned = record {
      user_id = s.user_id;
      session_id = s.id;
      until = now + warning_dedupe_ttl_seconds * 1000;
    } in
    let noted = with_warned-Sound (insert row db.warned) db h in
    let event = expiring_soon s.user_id s.id (minutes_remaining s now) in
    let after = emit-Sound event (with_warned (insert row db.warned) db) (λ k. refl) noted in
    elim (Bool-cases (any (is_warned s now) db.warned)) [
      | inl t ↦ ground arith
      | inr f ↦ ground arith
    ]

warn_each-Sound :
    (now : ℕ) (soon : List Session) (db : Db) → Sound db → Sound (warn_each now soon db)
unfolding warn_each
warn_each-Sound now [] db h = h
warn_each-Sound now (s ∷ ss) db h = warn_each-Sound now ss (warn now s db) (warn-Sound now s db h)

pub warn_expiring_soon-Sound : (now : ℕ) → Keeps Sound (warn_expiring_soon now)
unfolding warn_expiring_soon
warn_expiring_soon-Sound now db h = warn_each-Sound now _ db h

end_session_disconnected-Sound : (id now : ℕ) → Keeps Sound (end_session_disconnected id now)
unfolding end_session_disconnected
end_session_disconnected-Sound id now db h =
    let mid = expire_session_by_id id now EndReason.disconnected db in
    let kept = expire_session_by_id-Sound id now EndReason.disconnected db h in
    elim (Result-cases mid) [
      | inl (e, q) ↦ ground arith
      | inr (none, q) ↦ ground arith
      | inr (some s, q) ↦
          let after =
            emit_changed-Sound s.user_id none none _ (del_mirror-Sound s.user_id mid.1 kept) in
          ground arith
    ]

check_presence-Sound : (p : Presence) (now : ℕ) (s : Session) → Keeps Sound (check_presence p now s)
unfolding check_presence
check_presence-Sound absent now s db h =
    let after = end_session_disconnected-Sound s.id now db h in ground arith
check_presence-Sound unreadable now s db h = h
check_presence-Sound (present active last_beat) now s db h =
    let mid = set_session_state s.id away now db in
    let kept = set_session_state-Sound s.id away now db h in
    let after = emit_changed-Sound s.user_id (some away) s.expires_at mid.1 kept in
    elim (Result-cases mid) [ inl (e, q) ↦ ground arith | inr (r, q) ↦ ground arith ]

check_presence_each-Sound :
    (presence : ℕ → Presence) (now : ℕ) (sessions : List Session)
    → Keeps Sound (check_presence_each presence now sessions)
unfolding check_presence_each
check_presence_each-Sound presence now [] db h = h
check_presence_each-Sound presence now (s ∷ ss) db h =
    >>=-Keeps Sound (check_presence (presence s.user_id) now s)
      (λ _. check_presence_each presence now ss) (check_presence-Sound (presence s.user_id) now s)
      (λ _. check_presence_each-Sound presence now ss) db h

pub check_presence_driven_transitions-Sound :
    (presence : ℕ → Presence) (now : ℕ)
    → Keeps Sound (check_presence_driven_transitions presence now)
unfolding check_presence_driven_transitions
check_presence_driven_transitions-Sound presence now db h =
    check_presence_each-Sound presence now (find_active_available_now_sessions db) db h

recover_from_away-Sound : (id now : ℕ) → Keeps Sound (recover_from_away id now)
unfolding recover_from_away
recover_from_away-Sound id now db h =
    let mid = set_session_state id available_now now db in
    let kept = set_session_state-Sound id available_now now db h in
    elim (Result-cases mid) [
      | inl (e, q) ↦ ground arith
      | inr (none, q) ↦ ground arith
      | inr (some s, q) ↦
          let after = emit_changed-Sound s.user_id (some available_now) s.expires_at mid.1 kept in
          ground arith
    ]

pub tick-Sound : (presence : ℕ → Presence) (now : ℕ) → Keeps Sound (tick presence now)
unfolding tick
tick-Sound presence now =
    >>=-Keeps Sound (sweep_expired now)
      (λ _. warn_expiring_soon now >> check_presence_driven_transitions presence now)
      (sweep_expired-Sound now)
      (λ _.
        >>=-Keeps Sound (warn_expiring_soon now)
          (λ _. check_presence_driven_transitions presence now) (warn_expiring_soon-Sound now)
          (λ _. check_presence_driven_transitions-Sound presence now))

-- What can happen: a request of a user, the expiry of the key of a user, a run of the worker, and
-- renewed activity in a session.
pub data Request : Type 0 where
  posted : ℕ → Bool → ℕ → Bool → CreateSessionInput → ℕ → Request
  patched : Bool → ℕ → ℕ → Bool → ℕ → ℕ → Request
  stopped : ℕ → ℕ → ℕ → Request
  key_expired : ℕ → ℕ → Request
  worker_ran : (ℕ → Presence) → ℕ → Request
  active_again : ℕ → ℕ → Request

unfoldable pub step : Request → Db → Db
step (posted id written user premium input now) db =
    (post_session id written user premium input now db).1
step (patched written user id premium more now) db =
    (patch_extend written user id premium more now db).1
step (stopped user id now) db = (end user id now db).1
step (key_expired user now) db = (expire_by_user_id user now db).1
step (worker_ran presence now) db = (tick presence now db).1
step (active_again id now) db = (recover_from_away id now db).1

unfoldable pub run : List Request → Db → Db
run [] db = db
run (r ∷ rs) db = run rs (step r db)

step-Sound : (r : Request) (db : Db) → Sound db → Sound (step r db)
unfolding step
step-Sound (posted id written user premium input now) =
    post_session-Sound id written user premium input now
step-Sound (patched written user id premium more now) =
    patch_extend-Sound written user id premium more now
step-Sound (stopped user id now) = end-Sound user id now
step-Sound (key_expired user now) = expire_by_user_id-Sound user now
step-Sound (worker_ran presence now) = tick-Sound presence now
step-Sound (active_again id now) = recover_from_away-Sound id now

-- Whatever happens, in any order and at any times, the tables stay sound: ids are distinct, a user
-- has at most one active session and a row of availability_live exactly when there is one, every
-- session keeps to three extensions and 240 minutes, and the expiries told are those of sessions
-- that are over.
pub run-Sound : (rs : List Request) (db : Db) → Sound db → Sound (run rs db)
unfolding run
run-Sound [] db h = h
run-Sound (r ∷ rs) db h = run-Sound rs (step r db) (step-Sound r db h)

-- Whatever happens after the tables are sound, the expiry of a session is told at most once, though
-- the worker and the listener both tell it.
pub run-expired_once :
    (rs : List Request) (db : Db) (k : ℕ)
    → Sound db
    → count (is_expired_event k) (run rs db).events ≤ 1
run-expired_once rs db k h =
    let after = run-Sound rs db h in
    let told = told_of (run rs db) after k in
    let over = count_mono (is_over k) (is_id k) (run rs db).sessions (λ s t. ground arith) in
    let one = count-key (λ s. s.id) k (run rs db).sessions (Sound-Distinct (run rs db) after) in
    omega arith
