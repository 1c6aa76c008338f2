-- ===== src/Availability/Sweep.antt =====
-- What the calls of a run of the sweeper write, and what they leave (availability-expiry.service.ts: sweepExpired;
-- apps/api/src/workers/availability-expiry.worker.ts).
pub mod Outcomes
use convene.Common.{
  ℕ, ◌≤◌, ◌<◌, ◌⊎◌, none, ltb, find_first-update_kept, ◌≡◌, ◌≢◌, refl, sym, ap, ◌∙◌, inl, inr,
  subst, Bool, true, false, some, List, [], ◌∷◌, arith, ◌==◌, ==_iff, ==_refl, Bool-cases,
  Option-cases, if◌then◌else◌, any, select, find_first, update_where, All, All-imp, Distinct,
  find_first-none, find_first_unique, find_first-update_other, update_none, select-none,
  All-select_if,
}
use convene.Availability.{
  ActivatableState, available_now, busy, away, invisible, is_active, is_available_now, EndReason,
  Session, Db, is_id,
}
use convene.Availability.Repository.{ended, is_due, is_active_id, find_expired_sessions}
use convene.Availability.Expiry.{expire_session, expire_each, sweep_expired}
use convene.Availability.Consistency.{Sound}
use convene.Availability.Ending.{expire_session-none, expire_session-some, Sound-Distinct}
use convene.Availability.History.{expire_session-ok}

-- A call of `expireSession` writes the active rows with its id, and no others.
pub expire_session-sessions :
    (id now : ℕ) (db : Db)
    → (expire_session id now db).1.sessions
      ≡ update_where (is_active_id id) (ended now EndReason.expired) db.sessions
expire_session-sessions id now db = elim (Option-cases (find_first (is_active_id id) db.sessions)) [
  | inl e ↦
      ap (λ x. x.sessions) (expire_session-none id now db e)
      ∙ sym (
          update_none (is_active_id id) (ended now EndReason.expired) db.sessions
            (find_first-none (is_active_id id) db.sessions e))
  | inr (a, e) ↦ ap (λ x. x.sessions) (expire_session-some id now db {a = a} e)
]

pub expire_each-next :
    (now : ℕ) (s : Session) (ss : List Session) (db : Db)
    → expire_each now (s ∷ ss) db ≡ expire_each now ss (expire_session s.id now db).1
unfolding expire_each
expire_each-next now s ss db = let fine = expire_session-ok s.id now db in ground arith

-- What finds a session by its id finds it as it was after the expiry of another.
pub expire_session-other :
    (id now k : ℕ) (db : Db)
    → id ≢ k
    → find_first (is_id k) (expire_session id now db).1.sessions ≡ find_first (is_id k) db.sessions
expire_session-other id now k db ne =
    ap (find_first (is_id k)) (expire_session-sessions id now db)
    ∙ find_first-update_other (is_id k) (is_active_id id) (ended now EndReason.expired) db.sessions
        (λ x t. ground arith) (λ x t. ground arith)

pub expire_each-other :
    (now k : ℕ) (due : List Session) (db : Db)
    → All (λ d. d.id ≢ k) due
    → find_first (is_id k) (expire_each now due db).1.sessions ≡ find_first (is_id k) db.sessions
unfolding expire_each
expire_each-other now k [] db h = refl
expire_each-other now k (d ∷ ds) db h =
    ap (λ r. find_first (is_id k) r.1.sessions) (expire_each-next now d ds db)
    ∙ expire_each-other now k ds (expire_session d.id now db).1 h.1
    ∙ expire_session-other d.id now k db h.0

-- No row that a test selects has the id of a session that it does not.
pub unselected_row :
    (p : Session → Bool) (k : ℕ) (sessions : List Session) {s : Session}
    → Distinct (λ x. x.id) sessions
    → find_first (is_id k) sessions ≡ some s
    → p s ≡ false
    → All (λ x. x.id ≢ k) (select p sessions)
unselected_row p k sessions {s = s} d e other =
    All-select_if (λ x. x.id ≢ k) p sessions
      (All-imp (λ x. is_id k x ≡ true → x ≡ s) (λ x. p x ≡ true → x.id ≢ k) sessions
        (λ x only t same.
          let equal = only ((==_iff x.id k).1 same) in
          let not_it = subst (λ y. p y ≡ false) (sym equal) other in ground arith)
        (find_first_unique (λ x. x.id) k sessions {a = s} d e))

-- No row that a test for available_now selects has the id of a session in another state.
pub unselected :
    (p : Session → Bool) (k : ℕ) (sessions : List Session) {s : Session}
    → Distinct (λ x. x.id) sessions
    → find_first (is_id k) sessions ≡ some s
    → is_available_now s.state ≡ false
    → ((x : Session) → p x ≡ true → is_available_now x.state ≡ true)
    → All (λ x. x.id ≢ k) (select p sessions)
unselected p k sessions {s = s} d e state h =
    All-select_if (λ x. x.id ≢ k) p sessions
      (All-imp (λ x. is_id k x ≡ true → x ≡ s) (λ x. p x ≡ true → x.id ≢ k) sessions
        (λ x only t same.
          let equal = only ((==_iff x.id k).1 same) in
          let shown = h x t in
          let other = subst (λ y. is_available_now y.state ≡ false) (sym equal) state in
          ground arith)
        (find_first_unique (λ x. x.id) k sessions {a = s} d e))

pub sweep-other :
    (now k : ℕ) (db : Db) {s : Session}
    → Sound db
    → find_first (is_id k) db.sessions ≡ some s
    → is_available_now s.state ≡ false
    → find_first (is_id k) (sweep_expired now db).1.sessions ≡ some s
unfolding sweep_expired find_expired_sessions
sweep-other now k db {s = s} h e state =
    expire_each-other now k (find_expired_sessions now db) db (
      unselected (is_due now) k db.sessions {s = s} (Sound-Distinct db h) e state
        (λ x t. ground arith))
    ∙ e
