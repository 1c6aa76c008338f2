-- ===== src/Availability/Sweep/Outcomes.antt =====
-- Which sessions a run of the sweeper ends (availability-expiry.service.ts: sweepExpired).
use convene.Common.{
  ℕ, ◌≤◌, ◌<◌, ◌⊎◌, none, ltb, find_first-update_kept, ◌≡◌, ◌≢◌, refl, sym, ap, ◌∙◌, inl, inr,
  subst, Bool, true, false, some, List, [], ◌∷◌, arith, ◌==◌, ==_iff, Bool-cases, Option-cases, any,
  select, find_first, update_where,
}
use convene.Availability.{
  ActivatableState, available_now, busy, away, invisible, is_active, is_available_now, EndReason,
  Session, Db, is_id,
}
use convene.Availability.Repository.{ended, is_due, is_active_id, find_expired_sessions}
use convene.Availability.Expiry.{expire_session, expire_each, sweep_expired}
use convene.Availability.Consistency.{Sound}
use convene.Availability.Ending.{Sound-Distinct}
use convene.Availability.Sweep.{
  expire_session-sessions, expire_session-other, expire_each-other, expire_each-next,
  unselected_row,
}

-- A row that has ended is not written again.
expire_each-ended :
    (now k : ℕ) (due : List Session) (db : Db) {x : Session}
    → find_first (is_id k) db.sessions ≡ some x
    → is_active x ≡ false
    → find_first (is_id k) (expire_each now due db).1.sessions ≡ some x
unfolding expire_each
expire_each-ended now k [] db e over = e
expire_each-ended now k (d ∷ ds) db {x = x} e over =
    ap (λ r. find_first (is_id k) r.1.sessions) (expire_each-next now d ds db)
    ∙ expire_each-ended now k ds (expire_session d.id now db).1 {x = x}
        (ap (find_first (is_id k)) (expire_session-sessions d.id now db)
          ∙ find_first-update_kept (is_id k) (is_active_id d.id) (ended now EndReason.expired)
              db.sessions {a = x} (λ y. refl) e (ground arith))
        over

found_ended :
    (now k : ℕ) (rows : List Session) {s : Session}
    → find_first (is_id k) rows ≡ some s
    → is_active s ≡ true
    → find_first (is_id k) (update_where (is_active_id k) (ended now EndReason.expired) rows)
      ≡ some (ended now EndReason.expired s)
found_ended now k [] e active = cc
found_ended now k (x ∷ xs) {s = s} e active = ground (arith, found_ended now k xs {s = s})

-- A list of due rows that has the row's id ends it.
expire_each-ends :
    (now k : ℕ) (due : List Session) (db : Db) {s : Session}
    → any (λ d. d.id == k) due ≡ true
    → find_first (is_id k) db.sessions ≡ some s
    → is_active s ≡ true
    → find_first (is_id k) (expire_each now due db).1.sessions
      ≡ some (ended now EndReason.expired s)
expire_each-ends now k [] db here e active = cc
expire_each-ends now k (d ∷ ds) db {s = s} here e active =
    let next = (expire_session d.id now db).1 in
    ap (λ r. find_first (is_id k) r.1.sessions) (expire_each-next now d ds db)
    ∙ elim (Bool-cases (d.id == k)) [
      | inl t ↦
          let same : d.id ≡ k = (==_iff d.id k).0 t in
          expire_each-ended now k ds next {x = ended now EndReason.expired s}
            (ap (find_first (is_id k)) (expire_session-sessions d.id now db)
              ∙ subst
                  (λ i.
                    find_first (is_id k)
                      (update_where (is_active_id i) (ended now EndReason.expired) db.sessions)
                    ≡ some (ended now EndReason.expired s))
                  (sym same) (found_ended now k db.sessions {s = s} e active))
            refl
      | inr f ↦
          expire_each-ends now k ds next {s = s} (ground arith)
            (expire_session-other d.id now k db (λ q. ground (arith, (==_iff d.id k).1 q)) ∙ e)
            active
    ]

select-has :
    (p : Session → Bool) (k : ℕ) (rows : List Session) {s : Session}
    → find_first (is_id k) rows ≡ some s
    → p s ≡ true
    → any (λ d. d.id == k) (select p rows) ≡ true
select-has p k [] e t = cc
select-has p k (x ∷ xs) {s = s} e t =
    let rest = select-has p k xs {s = s} in
    elim (Bool-cases (p x)) [ inl q ↦ ground arith | inr q ↦ ground arith ]

-- Why a sweep leaves a session: it is not available now, it has ended, it has no expiry, or one that
-- has not passed.
pub data IsSpared (now : ℕ) (s : Session) : Type 0 where
  elsewhere : s.state ≢ available_now → IsSpared now s
  over : (at : ℕ) → s.ended_at ≡ some at → IsSpared now s
  unlimited : s.expires_at ≡ none → IsSpared now s
  not_yet : (t : ℕ) → s.expires_at ≡ some t → now ≤ t → IsSpared now s

state-cases :
    (st : ActivatableState)
    → ((st ≡ available_now) × (is_available_now st ≡ true))
      ⊎ ((st ≢ available_now) × (is_available_now st ≡ false))
unfolding is_available_now
state-cases available_now = inl (refl, refl)
state-cases busy = inr ((λ e. cc), refl)
state-cases away = inr ((λ e. cc), refl)
state-cases invisible = inr ((λ e. cc), refl)

-- From sound tables, a sweep ends, as expired and at its own time, a session that is available now and active and whose
-- expiry has passed; a session that is not available now, has ended, or has no expiry or one that has
-- not passed, it leaves as it was.
pub sweep_lem :
    (now k : ℕ) (db : Db) (s : Session)
    → Sound db
    → find_first (is_id k) db.sessions ≡ some s
    → let after = find_first (is_id k) (sweep_expired now db).1.sessions in
      ((t : ℕ) × (s.state ≡ available_now)
        × (s.ended_at ≡ none)
        × (s.expires_at ≡ some t)
        × (t < now)
        × (after ≡ some (record s { ended_at = some now; end_reason = some EndReason.expired })))
      ⊎ (IsSpared now s × (after ≡ some s))
unfolding sweep_expired find_expired_sessions
sweep_lem now k db s h e =
    let spared = λ (f : is_due now s ≡ false).
      expire_each-other now k (find_expired_sessions now db) db
        (unselected_row (is_due now) k db.sessions {s = s} (Sound-Distinct db h) e f)
      ∙ e in
    elim (state-cases s.state) [
      | inr (gone, shut) ↦ inr (elsewhere gone, spared (ground arith))
      | inl (here, open_now) ↦ elim (Option-cases s.ended_at) [
        | inr (at, done) ↦ inr (over at done, spared (ground arith))
        | inl running ↦ elim (Option-cases s.expires_at) [
          | inl never ↦ inr (unlimited never, spared (ground arith))
          | inr (t, expiry) ↦ elim (Bool-cases (ltb t now)) [
            | inr later ↦ inr (not_yet t expiry (ground arith), spared (ground arith))
            | inl past ↦ inl (
              t,
              here,
              running,
              expiry,
              ground arith,
              expire_each-ends now k (find_expired_sessions now db) db {s = s}
                  (select-has (is_due now) k db.sessions {s = s} e (ground arith)) e (ground arith),
            )
          ]
        ]
      ]
    ]
