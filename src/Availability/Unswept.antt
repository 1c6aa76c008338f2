-- ===== src/Availability/Unswept.antt =====
-- A run of the worker leaves a session that is away (apps/api/src/workers/availability-expiry.worker.ts;
-- availability-expiry.service.ts).
use convene.Common.{
  ℕ, ◌≡◌, ◌≢◌, refl, ap, ◌∙◌, inl, inr, false, ◌&&◌, Option, none, some, List, [], ◌∷◌, arith,
  Option-cases, find_first, All, find_first-update_other,
}
use convene.Errors.{Result-cases, ◌>>◌, Keeps, >>=-Keeps}
use convene.Availability.{
  ActivatableState, is_available_now, away, EndReason, Session, Db, is_id, is_active,
}
use convene.Availability.Repository.{
  ended, is_active_id, find_active_available_now_sessions, find_sessions_expiring_within,
  expire_session_by_id, set_session_state, with_state,
}
use convene.Availability.Expiry.{
  Presence, absent, unreadable, present, sweep_expired, warn, warn_each, warn_expiring_soon,
  end_session_disconnected, check_presence, check_presence_each, check_presence_driven_transitions,
  tick, warning_window_ms,
}
use convene.Availability.Mirrors.{emit_changed, del_mirror}
use convene.Availability.Consistency.{Sound}
use convene.Availability.Ending.{Sound-Distinct}
use convene.Availability.History.{
  sweep_expired-Sound, warn_expiring_soon-Sound, check_presence_driven_transitions-Sound,
  tick-Sound,
}
use convene.Availability.Sweep.{unselected, sweep-other}

warn_each-sessions :
    (now : ℕ) (soon : List Session) (db : Db) → (warn_each now soon db).sessions ≡ db.sessions
unfolding warn_each warn
warn_each-sessions now [] db = refl
warn_each-sessions now (s ∷ ss) db = warn_each-sessions now ss (warn now s db) ∙ ground arith

expire_by_id-other :
    (id now k : ℕ) (reason : EndReason) (db : Db)
    → id ≢ k
    → find_first (is_id k) (expire_session_by_id id now reason db).1.sessions
      ≡ find_first (is_id k) db.sessions
unfolding expire_session_by_id
expire_by_id-other id now k reason db ne =
    let other =
      find_first-update_other (is_id k) (is_active_id id) (ended now reason) db.sessions
        (λ x t. ground arith) (λ x t. ground arith) in
    elim (Option-cases (find_first (is_active_id id) db.sessions)) [
      | inl e ↦ ground arith
      | inr (a, e) ↦ ground arith
    ]

set_state-other :
    (id now k : ℕ) (state : ActivatableState) (db : Db)
    → id ≢ k
    → find_first (is_id k) (set_session_state id state now db).1.sessions
      ≡ find_first (is_id k) db.sessions
unfolding set_session_state
set_state-other id now k state db ne =
    let other =
      find_first-update_other (is_id k) (is_active_id id) (with_state state) db.sessions
        (λ x t. ground arith) (λ x t. ground arith) in
    elim (Option-cases (find_first (is_active_id id) db.sessions)) [
      | inl e ↦ ground arith
      | inr (a, e) ↦ ground arith
    ]

-- The session that an id finds.
Holds : ℕ → Session → Db → Type 0
Holds k s db = find_first (is_id k) db.sessions ≡ some s

expire_by_id-Holds :
    (id now k : ℕ) (reason : EndReason) (s : Session)
    → id ≢ k
    → Keeps (Holds k s) (expire_session_by_id id now reason)
unfolding Holds
expire_by_id-Holds id now k reason s ne db h = expire_by_id-other id now k reason db ne ∙ h

set_state-Holds :
    (id now k : ℕ) (state : ActivatableState) (s : Session)
    → id ≢ k
    → Keeps (Holds k s) (set_session_state id state now)
unfolding Holds
set_state-Holds id now k state s ne db h = set_state-other id now k state db ne ∙ h

beside-Holds :
    (k : ℕ) (s : Session) (user w : ℕ) (state : Option ActivatableState) (expires : Option ℕ)
    (db : Db)
    → Holds k s db
    → Holds k s (emit_changed user state expires db)
      × Holds k s (emit_changed user state expires (del_mirror w db))
unfolding Holds
beside-Holds k s user w state expires db h = (h, h)

check_presence-Holds :
    (p : Presence) (now k : ℕ) (t s : Session)
    → t.id ≢ k
    → Keeps (Holds k s) (check_presence p now t)
unfolding check_presence end_session_disconnected
check_presence-Holds absent now k t s ne db h =
    let mid = expire_session_by_id t.id now EndReason.disconnected db in
    let kept = expire_by_id-Holds t.id now k EndReason.disconnected s ne db h in
    elim (Result-cases mid) [
      | inl (e, q) ↦ ground arith
      | inr (none, q) ↦ ground arith
      | inr (some row, q) ↦
          let after = (beside-Holds k s row.user_id row.user_id none none mid.1 kept).1 in
          ground arith
    ]
check_presence-Holds unreadable now k t s ne db h = h
check_presence-Holds (present active last_beat) now k t s ne db h =
    let mid = set_session_state t.id away now db in
    let kept = set_state-Holds t.id now k away s ne db h in
    let after = (beside-Holds k s t.user_id t.user_id (some away) t.expires_at mid.1 kept).0 in
    elim (Result-cases mid) [ inl (e, q) ↦ ground arith | inr (row, q) ↦ ground arith ]

check_presence_each-Holds :
    (presence : ℕ → Presence) (now k : ℕ) (s : Session) (sessions : List Session) (db : Db)
    → All (λ x. x.id ≢ k) sessions
    → Holds k s db
    → Holds k s (check_presence_each presence now sessions db).1
unfolding check_presence_each
check_presence_each-Holds presence now k s [] db ne h = h
check_presence_each-Holds presence now k s (t ∷ ts) db ne h =
    >>=-Keeps (Holds k s) (check_presence (presence t.user_id) now t)
      (λ _. check_presence_each presence now ts)
      (check_presence-Holds (presence t.user_id) now k t s ne.0)
      (λ _ next q. check_presence_each-Holds presence now k s ts next ne.1 q) db h

sweep-Holds :
    (now k : ℕ) (s : Session) (db : Db)
    → is_available_now s.state ≡ false
    → Sound db
    → Holds k s db
    → Holds k s (sweep_expired now db).1
unfolding Holds
sweep-Holds now k s db state sound h = sweep-other now k db {s = s} sound h state

warn-Holds : (now k : ℕ) (s : Session) → Keeps (Holds k s) (warn_expiring_soon now)
unfolding Holds warn_expiring_soon
warn-Holds now k s db h =
    ap (find_first (is_id k))
      (warn_each-sessions now (find_sessions_expiring_within now warning_window_ms db) db)
    ∙ h

others_lem :
    (k : ℕ) (s : Session) (db : Db)
    → is_available_now s.state ≡ false
    → Sound db
    → Holds k s db
    → All (λ x. x.id ≢ k) (find_active_available_now_sessions db)
unfolding Holds find_active_available_now_sessions
others_lem k s db state sound h =
    unselected (λ x. is_available_now x.state && is_active x) k db.sessions {s = s}
      (Sound-Distinct db sound) h state (λ x t. ground arith)

presence-Holds :
    (presence : ℕ → Presence) (now k : ℕ) (s : Session) (db : Db)
    → is_available_now s.state ≡ false
    → Sound db
    → Holds k s db
    → Holds k s (check_presence_driven_transitions presence now db).1
unfolding check_presence_driven_transitions
presence-Holds presence now k s db state sound h =
    check_presence_each-Holds presence now k s (find_active_available_now_sessions db) db
      (others_lem k s db state sound h) h

-- A run of the worker, its three parts together.
tick-Holds :
    (presence : ℕ → Presence) (now k : ℕ) (s : Session) (db : Db)
    → is_available_now s.state ≡ false
    → Sound db
    → Holds k s db
    → Holds k s (tick presence now db).1
unfolding tick
tick-Holds presence now k s db state sound h =
    (>>=-Keeps (λ x. Sound x × Holds k s x) (sweep_expired now)
      (λ _. warn_expiring_soon now >> check_presence_driven_transitions presence now)
      (λ x q. (sweep_expired-Sound now x q.0, sweep-Holds now k s x state q.0 q.1))
      (λ _.
        >>=-Keeps (λ x. Sound x × Holds k s x) (warn_expiring_soon now)
          (λ _. check_presence_driven_transitions presence now)
          (λ x q. (warn_expiring_soon-Sound now x q.0, warn-Holds now k s x q.1))
          (λ _ x q. (
            check_presence_driven_transitions-Sound presence now x q.0,
            presence-Holds presence now k s x state q.0 q.1,
          )))
      db (sound, h)).1

-- Runs of the worker's job, one after another, each with what presence keys hold and its time.
pub ticks : List ((ℕ → Presence) × ℕ) → Db → Db
ticks [] db = db
ticks (r ∷ rs) db = ticks rs (tick r.0 r.1 db).1

ticks-Holds :
    (runs : List ((ℕ → Presence) × ℕ)) (k : ℕ) (s : Session) (db : Db)
    → is_available_now s.state ≡ false
    → Sound db
    → Holds k s db
    → Holds k s (ticks runs db)
unfolding ticks
ticks-Holds [] k s db state sound h = h
ticks-Holds (r ∷ rs) k s db state sound h =
    ticks-Holds rs k s (tick r.0 r.1 db).1 state (tick-Sound r.0 r.1 db sound)
      (tick-Holds r.0 r.1 k s db state sound h)

-- Where the tables are sound, any number of runs of the worker at any times leaves a session that
-- is not available now, so one that is away, as it is: active if it was, however long ago it
-- expired.
pub ticks-unswept :
    (runs : List ((ℕ → Presence) × ℕ)) (k : ℕ) (s : Session) (db : Db)
    → Sound db
    → is_available_now s.state ≡ false
    → find_first (is_id k) db.sessions ≡ some s
    → find_first (is_id k) (ticks runs db).sessions ≡ some s
unfolding Holds
ticks-unswept runs k s db sound state h = ticks-Holds runs k s db state sound h
