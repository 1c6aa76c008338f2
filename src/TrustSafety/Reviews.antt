-- ===== src/TrustSafety/Reviews.antt =====
-- What the review of an appeal does, on every branch (appeals.service.ts).
use convene.Common.{
  ℕ, ◌≡◌, ◌≢◌, ap, ==_iff, none, refl, ◌⊎◌, inl, inr, Bool, true, false, Option, some, List, arith,
  ◌==◌, opt_eq, find_first, find_first-update, update_where, Bool-cases, Option-cases,
}
use convene.Errors.{Result, ok, err}
use convene.TrustSafety.{
  ModerationAction, AppealStatus, UserStatus, User, Appeal, Db, pending, upheld, overturned,
  reversed_row, reverse_action, set_user_status, record_audit, find_action, find_appeal, decide,
}
use convene.TrustSafety.Appeals.{Decision, uphold, overturn, review, status_of_decision, is_pending}
use convene.TrustSafety.Outcomes.{users_for}

abbrev pub decided_row : Decision → ℕ → List ℕ → ℕ → Appeal → Appeal
decided_row decision reviewer rationale now a = record a {
  status = status_of_decision decision;
  reviewer_admin_id = some reviewer;
  decision_rationale = some rationale;
  decided_at = some now;
}

abbrev pub actions_after : Decision → ℕ → ℕ → ℕ → List ModerationAction → List ModerationAction
actions_after uphold id by now rows = rows
actions_after overturn id by now rows = update_where (λ a. a.id == id) (reversed_row by now) rows

abbrev pub lifted : Decision → Option ℕ → List User → List User
lifted uphold user users = users
lifted overturn user users = users_for (some UserStatus.active) user users

abbrev pub is_ok : {A : Type 0} → Result A → Bool
is_ok (ok a) = true
is_ok (err e) = false

status-cases : (s : AppealStatus) → (s ≡ pending) ⊎ (is_pending s ≡ false)
status-cases pending = inl refl
status-cases upheld = inr refl
status-cases overturned = inr refl

module _ (reviewer id : ℕ) (decision : Decision) (rationale : List ℕ) (now : ℕ) (db : Db)
    (appeal : Appeal) (action : ModerationAction)
    (f : find_first (λ a. a.id == id) db.appeals ≡ some appeal)
    (g : find_first (λ a. a.id == appeal.moderation_action_id) db.actions ≡ some action) where
  review-decides :
      appeal.status ≡ pending
      → opt_eq action.admin_id reviewer ≡ false
      → let r = review reviewer id decision rationale now db in
        (r.0 ≡ ok (decided_row decision reviewer rationale now appeal))
        × (r.1.appeals
            ≡ update_where
                (λ a. a.id == id)
                (decided_row decision reviewer rationale now)
                db.appeals)
        × (r.1.actions ≡ actions_after decision action.id reviewer now db.actions)
        × (r.1.users ≡ lifted decision action.target_user_id db.users)
  unfolding review find_action find_appeal record_audit set_user_status decide reverse_action
  review-decides p o =
      let decided =
        find_first-update (λ a. a.id) id (decided_row decision reviewer rationale now) db.appeals
          {a = appeal} (λ a. refl) f in
      ground (arith, decided)

  review-refuses :
      (is_pending appeal.status ≡ false) ⊎ (opt_eq action.admin_id reviewer ≡ true)
      → let r = review reviewer id decision rationale now db in (is_ok r.0 ≡ false) × (r.1 ≡ db)
  unfolding review find_action find_appeal
  review-refuses h = ground arith

abbrev pub Decides :
    ℕ → ℕ → Decision → List ℕ → ℕ → Db → Appeal → ModerationAction → Result Appeal × Db → Type 0
Decides reviewer id decision rationale now db appeal action r =
    (find_first (λ a. a.id == id) db.appeals ≡ some appeal)
    × (appeal.status ≡ pending)
    × (find_first (λ a. a.id == appeal.moderation_action_id) db.actions ≡ some action)
    × (opt_eq action.admin_id reviewer ≡ false)
    × (r.0 ≡ ok (decided_row decision reviewer rationale now appeal))
    × (r.1.appeals
        ≡ update_where (λ a. a.id == id) (decided_row decision reviewer rationale now) db.appeals)
    × (r.1.actions ≡ actions_after decision action.id reviewer now db.actions)
    × (r.1.users ≡ lifted decision action.target_user_id db.users)

-- Why a review is refused: no appeal with the id, one that is decided already, no action for it, or
-- an action that the reviewer took.
pub data IsRefused (reviewer id : ℕ) (db : Db) : Type 0 where
  no_appeal : find_first (λ a. a.id == id) db.appeals ≡ none → IsRefused reviewer id db
  already_decided :
      (appeal : Appeal)
      → find_first (λ a. a.id == id) db.appeals ≡ some appeal
      → appeal.status ≢ pending
      → IsRefused reviewer id db
  no_action :
      (appeal : Appeal)
      → find_first (λ a. a.id == id) db.appeals ≡ some appeal
      → find_first (λ a. a.id == appeal.moderation_action_id) db.actions ≡ none
      → IsRefused reviewer id db
  own_action :
      (appeal : Appeal) (action : ModerationAction)
      → find_first (λ a. a.id == id) db.appeals ≡ some appeal
      → find_first (λ a. a.id == appeal.moderation_action_id) db.actions ≡ some action
      → action.admin_id ≡ some reviewer
      → IsRefused reviewer id db

opt_eq-some : (o : Option ℕ) (b : ℕ) → opt_eq o b ≡ true → o ≡ some b
opt_eq-some none b h = cc
opt_eq-some (some a) b h = ap some ((==_iff a b).0 h)

not_pending : (s : AppealStatus) → is_pending s ≡ false → s ≢ pending
not_pending s h e = absurd (ground arith)

-- A review either succeeds, where the appeal is on file and pending and its action is on file and
-- was not taken by the reviewer: it records the decision and the reviewer, an overturned appeal also
-- reverses the action and sets its target active, and an upheld one changes neither. Or the appeal
-- is missing or decided, or its action is missing or the reviewer's own: then the call throws and
-- nothing is written.
pub review_lem :
    (reviewer id : ℕ) (decision : Decision) (rationale : List ℕ) (now : ℕ) (db : Db)
    → let r = review reviewer id decision rationale now db in
      ((appeal : Appeal) × (action : ModerationAction) × (Decides reviewer id decision rationale now
          db appeal action r))
      ⊎ (IsRefused reviewer id db × (is_ok r.0 ≡ false) × (r.1 ≡ db))
unfolding review find_action find_appeal
review_lem reviewer id decision rationale now db =
    elim (Option-cases (find_first (λ a. a.id == id) db.appeals)) [
      | inl n ↦ inr (no_appeal n, ground arith, ground arith)
      | inr (appeal, f) ↦
          elim (Option-cases (find_first (λ a. a.id == appeal.moderation_action_id) db.actions)) [
            | inl n ↦ inr (no_action appeal f n, ground arith, ground arith)
            | inr (action, g) ↦ elim (status-cases appeal.status) [
              | inr n ↦
                  let (failed, same) =
                    review-refuses reviewer id decision rationale now db appeal action f g
                      (inl n) in
                  inr (already_decided appeal f (not_pending appeal.status n), failed, same)
              | inl p ↦ elim (Bool-cases (opt_eq action.admin_id reviewer)) [
                | inl t ↦
                    let (failed, same) =
                      review-refuses reviewer id decision rationale now db appeal action f g
                        (inr t) in
                    let own = opt_eq-some action.admin_id reviewer t in
                    inr (own_action appeal action f g own, failed, same)
                | inr o ↦
                    let (a, b, c, d) =
                      review-decides reviewer id decision rationale now db appeal action f g p o in
                    inl (appeal, action, (f, p, g, o, a, b, c, d))
              ]
            ]
          ]
    ]

-- An appeal is decided once: after a review that succeeded, every later review of the same appeal,
-- by any admin and with any decision, throws and writes nothing.
pub review_twice :
    (reviewer later id : ℕ) (decision again : Decision) (rationale why : List ℕ)
    (now afterwards : ℕ) (db : Db) {a : Appeal}
    → (review reviewer id decision rationale now db).0 ≡ ok a
    → let db' = (review reviewer id decision rationale now db).1 in
      let r = review later id again why afterwards db' in (is_ok r.0 ≡ false) × (r.1 ≡ db')
review_twice reviewer later id decision again rationale why now afterwards db h =
    elim (review_lem reviewer id decision rationale now db) [
      | inr (why_not, failed, same) ↦ absurd (ground arith)
      | inl (appeal, action, d) ↦
          let db' = (review reviewer id decision rationale now db).1 in
          elim (review_lem later id again why afterwards db') [
            | inr (why_not, failed, same) ↦ (failed, same)
            | inl (appeal', action', d') ↦ absurd (
                ground (
                  arith,
                  find_first-update (λ a. a.id) id (decided_row decision reviewer rationale now)
                      db.appeals {a = appeal} (λ a. refl) d.0,
                ))
          ]
    ]
