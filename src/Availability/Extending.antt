-- ===== src/Availability/Extending.antt =====
-- A request that extends a session: when it may, and what follows the checks
-- (availability.service.ts: extendSession).
pub mod Capped
pub mod Outcomes
use convene.Common.{
  ℕ, ◌+◌, ◌*◌, ◌≤◌, ◌<◌, ◌≡◌, sym, ap, ◌⊎◌, inl, inr, subst, Bool, true, false, not, ◌&&◌, none,
  some, arith, ltb, leb, ◌==◌, Bool-cases, Option-cases, find_first, All, All-imp, find_first-holds,
  find_first-by_key, find_first_unique,
}
use convene.Errors.{
  Result-cases, err, M, Keeps, ◌>>◌, ◌>>=◌, pure, or_throw, AppError, gets, modify,
}
use convene.Availability.{is_available_now, Session, Db, minute, is_id, is_of}
use convene.Availability.Repository.{extended, extend_session}
use convene.Availability.Schemas.{max_extensions, cumulative_cap_minutes, free_max_duration_minutes}
use convene.Availability.Mirrors.{mirror_to_redis, emit_changed}
use convene.Availability.Service.{
  SessionResponse, extend, session_not_found, already_ended, only_available, max_reached,
  premium_required, to_session_response, session_intent_ids,
}
use convene.Availability.Consistency.{Sound, is_capped, extend_session-Sound}
use convene.Availability.Ending.{mirror_to_redis-Sound, Sound-Distinct}
use convene.Availability.Starting.{emit_changed-Sound}

-- The writes that follow every check of a request that extends a session.
pub lengthened : Bool → ℕ → ℕ → ℕ → ℕ → M Db SessionResponse
lengthened written user id total now = extend_session id user total now >>= λ row.
    or_throw row session_not_found >>= λ updated. gets (session_intent_ids id) >>= λ ids.
    modify (mirror_to_redis written user updated ids now)
    >> (modify (emit_changed user (some updated.state) updated.expires_at)
        >> pure (to_session_response updated ids))

-- What the checks of an extension ask of the session: fewer than three extensions so far, and a total
-- within 240 minutes, and within 120 on the free plan.
pub record Extensible (premium : Bool) (user id additional : ℕ) (db : Db) (session : Session)
    (expires : ℕ) : Type 0 where
  pub found : find_first (λ s. is_id id s && is_of user s) db.sessions ≡ some session
  pub running : session.ended_at ≡ none
  pub open_now : is_available_now session.state ≡ true
  pub expiry : session.expires_at ≡ some expires
  pub left : session.extensions_used < 3
  pub in_cap : expires + additional * 60000 ≤ session.started_at + 14400000
  pub in_plan : (premium ≡ true) ⊎ (expires + additional * 60000 ≤ session.started_at + 7200000)

-- Why an extension is refused, with the error of each reason.
pub data Refused (premium : Bool) (user id additional : ℕ) (db : Db) : AppError → Type 0 where
  missing :
      find_first (λ s. is_id id s && is_of user s) db.sessions ≡ none
      → Refused premium user id additional db session_not_found
  over :
      (session : Session) (at : ℕ)
      → find_first (λ s. is_id id s && is_of user s) db.sessions ≡ some session
      → session.ended_at ≡ some at
      → Refused premium user id additional db already_ended
  elsewhere :
      (session : Session)
      → find_first (λ s. is_id id s && is_of user s) db.sessions ≡ some session
      → (is_available_now session.state ≡ false) ⊎ (session.expires_at ≡ none)
      → Refused premium user id additional db only_available
  used_up :
      (session : Session)
      → find_first (λ s. is_id id s && is_of user s) db.sessions ≡ some session
      → 3 ≤ session.extensions_used
      → Refused premium user id additional db max_reached
  too_long :
      (session : Session) (expires : ℕ)
      → find_first (λ s. is_id id s && is_of user s) db.sessions ≡ some session
      → session.expires_at ≡ some expires
      → session.started_at + 14400000 < expires + additional * 60000
      → Refused premium user id additional db max_reached
  too_long_for_free :
      (session : Session) (expires : ℕ)
      → find_first (λ s. is_id id s && is_of user s) db.sessions ≡ some session
      → session.expires_at ≡ some expires
      → premium ≡ false
      → session.started_at + 7200000 < expires + additional * 60000
      → Refused premium user id additional db premium_required

abbrev Attempt : Bool → ℕ → ℕ → Bool → ℕ → ℕ → Db → Type 0
Attempt written user id premium additional now db =
    ((e : AppError) × Refused premium user id additional db e
      × (extend written user id premium additional now db ≡ (err e, db)))
    ⊎ ((session : Session) × (expires : ℕ) × Extensible premium user id additional db session
          expires
        × (extend written user id premium additional now db
            ≡ lengthened written user id (expires + additional * minute) now db))

pub extend-Attempt :
    (written : Bool) (user id : ℕ) (premium : Bool) (additional now : ℕ) (db : Db)
    → Attempt written user id premium additional now db
unfolding extend lengthened
extend-Attempt written user id premium additional now db =
    elim (Option-cases (find_first (λ s. is_id id s && is_of user s) db.sessions)) [
      | inl e ↦ inl (session_not_found, missing e, ground arith)
      | inr (session, found) ↦ elim (Option-cases session.ended_at) [
        | inr (t, e) ↦ inl (already_ended, over session t found e, ground arith)
        | inl running ↦ elim (Bool-cases (is_available_now session.state)) [
          | inr shut ↦ inl (only_available, elsewhere session found (inl shut), ground arith)
          | inl open_now ↦ elim (Option-cases session.expires_at) [
            | inl never ↦ inl (only_available, elsewhere session found (inr never), ground arith)
            | inr (expires, expiry) ↦ checked session expires found running open_now expiry
          ]
        ]
      ]
    ]
  where
    checked :
        (session : Session) (expires : ℕ)
        → find_first (λ s. is_id id s && is_of user s) db.sessions ≡ some session
        → session.ended_at ≡ none
        → is_available_now session.state ≡ true
        → session.expires_at ≡ some expires
        → Attempt written user id premium additional now db
    checked session expires found running open_now expiry =
        let total = expires + additional * minute in
        elim (Bool-cases (leb max_extensions session.extensions_used)) [
          | inl used ↦ inl (max_reached, used_up session found (ground arith), ground arith)
          | inr left ↦
              elim (Bool-cases (ltb (session.started_at + cumulative_cap_minutes * minute) total)) [
                | inl long ↦ inl (
                  max_reached,
                  too_long session expires found expiry (ground arith),
                  ground arith,
                )
                | inr in_cap ↦
                    elim (Bool-cases (
                      not premium
                      && ltb (session.started_at + free_max_duration_minutes * minute) total)) [
                        | inl free ↦ inl (
                          premium_required,
                          too_long_for_free session expires found expiry (ground arith)
                              (ground arith),
                          ground arith,
                        )
                        | inr in_plan ↦ inr (
                          session,
                          expires,
                          record {
                            found = found;
                            running = running;
                            open_now = open_now;
                            expiry = expiry;
                            left = ground arith;
                            in_cap = ground arith;
                            in_plan = ground arith;
                          },
                          ground arith,
                        )
                      ]
              ]
        ]
