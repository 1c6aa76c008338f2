-- ===== src/TrustSafety/History.antt =====
-- Histories of moderation calls, and what the two-admin rule says of each of them.
use convene.Common.{ℕ, ◌≡◌, ◌≢◌, List, [], All}
use convene.TrustSafety.{Db}
use convene.TrustSafety.Actions.{ApplyModerationActionInput, apply, approve, reverse}
use convene.TrustSafety.Appeals.{Decision, create, review}
use convene.TrustSafety.TwoAdmins.{
  Inv, IsBacked, apply-Inv, approve-Inv, reverse-Inv, create-Inv, review-Inv, start-Inv,
  Inv-IsBacked,
}

-- A call of one of the five endpoints, with the id and the time that it draws.
pub data Call : Type 0 where
  applies : (actor : ℕ) (input : ApplyModerationActionInput) (id now : ℕ) → Call
  approves : (approver id : ℕ) (rationale : List ℕ) → Call
  reverses : (actor id now : ℕ) → Call
  appeals : (user action_id : ℕ) (reason : List ℕ) (id now : ℕ) → Call
  reviews : (reviewer id : ℕ) (decision : Decision) (rationale : List ℕ) (now : ℕ) → Call

unfoldable pub step : Db → Call → Db
step db (applies actor input id now) = (apply actor input id now db).1
step db (approves approver id rationale) = (approve approver id rationale db).1
step db (reverses actor id now) = (reverse actor id now db).1
step db (appeals user action_id reason id now) = (create user action_id reason id now db).1
step db (reviews reviewer id decision rationale now) =
    (review reviewer id decision rationale now db).1

-- The database draws an id that no row has.
abbrev pub IsFresh : Call → Db → Type 0
IsFresh (applies actor input id now) db = All (λ a. a.id ≢ id) db.actions
IsFresh _ db = Unit

-- What any sequence of calls, by any admins and users, makes of a database without actions.
pub data Reach : Db → Type 0 where
  start : (db : Db) → db.actions ≡ [] → Reach db
  next : {db : Db} → Reach db → (c : Call) → IsFresh c db → Reach (step db c)

step-Inv : (db : Db) (c : Call) → IsFresh c db → Inv db → Inv (step db c)
unfolding step
step-Inv db (applies actor input id now) f v = apply-Inv actor input id now db f v
step-Inv db (approves approver id rationale) f v = approve-Inv approver id rationale db v
step-Inv db (reverses actor id now) f v = reverse-Inv actor id now db v
step-Inv db (appeals user action_id reason id now) f v =
    create-Inv user action_id reason id now db v
step-Inv db (reviews reviewer id decision rationale now) f v =
    review-Inv reviewer id decision rationale now db v

Reach-Inv : {db : Db} → Reach db → Inv db
Reach-Inv (start db e) = start-Inv db e
Reach-Inv (next {db} r c f) = step-Inv db c f (Reach-Inv r)

-- After any history of calls (apply, approve, reverse, appeal, review, each with a fresh id where
-- it inserts an action), every ban in force has two different admins behind it: the one who
-- applied it or one with a recorded approval of it, each.
pub Reach-IsBacked : {db : Db} → Reach db → All (IsBacked db.approvals) db.actions
Reach-IsBacked r = Inv-IsBacked _ (Reach-Inv r)
