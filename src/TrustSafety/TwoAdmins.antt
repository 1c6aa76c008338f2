-- ===== src/TrustSafety/TwoAdmins.antt =====
-- The two-admin rule for bans, over every history of moderation calls
-- (moderation-actions.service.ts and appeals.service.ts together).
mod Signers
use convene.Common.{
  ℕ, ◌+◌, ◌≤◌, ◌≡◌, ◌≢◌, refl, inl, inr, Bool, true, false, ◌&&◌, ◌||◌, some, List, [], ◌∷◌, arith,
  ◌==◌, ==_iff, ==_refl, opt_eq, length, length-append, any, All, All-imp, All-insert, All-update,
  Distinct, Distinct-insert, Distinct-update, All-update_found, find_first, find_first-holds,
  select, update_where, insert, Bool-cases, Option-cases,
}
use convene.TrustSafety.{
  ModerationActionType, ModerationAction, Approval, Appeal, User, AuditEntry, AuditAction, ban,
  reversed, Db, reversed_row, activated_row, activate, reverse_action, find_action, create_action,
  add_approval, list_approvals, record_audit, set_user_status, create_appeal, find_appeal, decide,
  requires_two_admin_approval,
}
use convene.TrustSafety
use convene.TrustSafety.Actions.{
  ApplyModerationActionInput, apply, approve, reverse, new_action, distinct_admins, set_add,
  set_of_admins,
}
use convene.TrustSafety.Appeals.{Decision, create, review}
use convene.TrustSafety.TwoAdmins.Signers.{
  signed, HasTwoAdmins, signed-insert, approved-HasTwoAdmins,
}

-- A ban in force has two admins behind it.
abbrev pub IsBacked : List Approval → ModerationAction → Type 0
IsBacked approvals row =
    row.action ≡ ban → row.status ≡ TrustSafety.active → HasTwoAdmins approvals row

pub record Rows (db : Db) : Type 0 where
  pub keyed : Distinct (λ a. a.id) db.actions
  pub backed : All (IsBacked db.approvals) db.actions

pub Inv : Db → Type 0
Inv db = Rows db

IsBacked-insert :
    (r : Approval) (xs : List Approval) (row : ModerationAction)
    → IsBacked xs row
    → IsBacked (insert r xs) row
IsBacked-insert r xs row h b s =
    let (x, y, n, p, q) = h b s in (x, y, n, signed-insert r xs row x p, signed-insert r xs row y q)

set_reversed-Inv :
    (id by now : ℕ) (db : Db)
    → Inv db
    → Inv (record db { actions = update_where (λ a. a.id == id) (reversed_row by now) db.actions })
unfolding Inv
set_reversed-Inv id by now db v = record {
  keyed =
      Distinct-update (λ a. a.id) (λ a. a.id == id) (reversed_row by now) db.actions (λ a. refl)
        v.keyed;
  backed =
      All-update (IsBacked db.approvals) (λ a. a.id == id) (reversed_row by now) db.actions
        (λ a _ _ b s. cc) v.backed;
}

reverse_action-Inv : (id by now : ℕ) (db : Db) → Inv db → Inv (reverse_action id by now db).1
unfolding reverse_action
reverse_action-Inv id by now db v = set_reversed-Inv id by now db v

-- Writes that leave the actions and the approvals alone.
same_rows-Inv :
    (db : Db) (appeals : List Appeal) (users : List User) (logs : List AuditEntry)
    → Inv db
    → Inv (record db { appeals = appeals; users = users; audit_logs = logs })
unfolding Inv
same_rows-Inv db appeals users logs v = record { keyed = v.keyed; backed = v.backed }

set_user_status-Inv :
    (user : ℕ) (status : TrustSafety.UserStatus) (db : Db)
    → Inv db
    → Inv (set_user_status user status db).1
unfolding set_user_status
set_user_status-Inv user status db v = same_rows-Inv db _ _ _ v

record_audit-Inv :
    (actor : ℕ) (action : AuditAction) (id : ℕ) (db : Db)
    → Inv db
    → Inv (record_audit actor action id db).1
unfolding record_audit
record_audit-Inv actor action id db v = same_rows-Inv db _ _ _ v

pub reverse-Inv : (actor id now : ℕ) (db : Db) → Inv db → Inv (reverse actor id now db).1
unfolding reverse find_action
reverse-Inv actor id now db v =
    grind (arith, reverse_action-Inv, set_user_status-Inv, record_audit-Inv)

create_action-Inv :
    (row : ModerationAction) (db : Db)
    → All (λ a. a.id ≢ row.id) db.actions
    → IsBacked db.approvals row
    → Inv db
    → Inv (create_action row db).1
unfolding create_action Inv
create_action-Inv row db fresh b v = record {
  keyed = Distinct-insert (λ a. a.id) row db.actions v.keyed fresh;
  backed = All-insert (IsBacked db.approvals) row db.actions v.backed b;
}

-- `apply` never puts a ban in force.
new_action-IsBacked :
    (approvals : List Approval) (actor : ℕ) (input : ApplyModerationActionInput) (id now : ℕ)
    → IsBacked approvals (new_action actor input id now)
unfolding new_action requires_two_admin_approval
new_action-IsBacked approvals actor input id now b s = absurd (ground arith)

pub apply-Inv :
    (actor : ℕ) (input : ApplyModerationActionInput) (id now : ℕ) (db : Db)
    → All (λ a. a.id ≢ id) db.actions
    → Inv db
    → Inv (apply actor input id now db).1
unfolding apply
apply-Inv actor input id now db fresh v =
    let created : Inv (create_action (new_action actor input id now) db).1 =
      create_action-Inv (new_action actor input id now) db (unfold new_action in fresh)
        (new_action-IsBacked db.approvals actor input id now) v in
    grind (arith, set_user_status-Inv, record_audit-Inv)

add_approval-Inv :
    (id admin : ℕ) (rationale : List ℕ) (db : Db)
    → Inv db
    → Inv (add_approval id admin rationale db).1
unfolding add_approval Inv
add_approval-Inv id admin rationale db v = record {
  keyed = v.keyed;
  backed =
      All-imp (IsBacked db.approvals) (IsBacked (add_approval id admin rationale db).1.approvals)
        db.actions (λ row. IsBacked-insert _ db.approvals row) v.backed;
}

-- What `approve` has established when it puts the action in force.
activate-Inv :
    (id approver : ℕ) (rationale : List ℕ) (db : Db) (action : ModerationAction)
    → Inv db
    → find_first (λ a. a.id == id) db.actions ≡ some action
    → opt_eq action.admin_id approver ≡ false
    → let mine = select (λ p. p.moderation_action_id == id) db.approvals in
      any (λ p. p.admin_id == approver) mine ≡ false
      → 2 ≤ length (distinct_admins mine approver action.admin_id)
      → Inv
          (activate id
            (record_audit approver TrustSafety.ban_approved id
              (add_approval id approver rationale db).1).1).1
unfolding activate add_approval record_audit Inv
activate-Inv id approver rationale db action v e h k l = record {
  keyed =
      Distinct-update (λ a. a.id) (λ a. a.id == id) activated_row db.actions (λ a. refl) v.keyed;
  backed =
      All-update_found (IsBacked later) (λ a. a.id) id activated_row db.actions v.keyed e
        (λ _ _ _.
          approved-HasTwoAdmins db.approvals action id approver rationale
            ((==_iff action.id id).0 (find_first-holds (λ a. a.id == id) db.actions e)) h k l)
        (All-imp (IsBacked db.approvals) (IsBacked later) db.actions
          (λ row. IsBacked-insert _ db.approvals row) v.backed);
}
  where
    later : List Approval
    later = (add_approval id approver rationale db).1.approvals

pub approve-Inv :
    (approver id : ℕ) (rationale : List ℕ) (db : Db)
    → Inv db
    → Inv (approve approver id rationale db).1
unfolding approve find_action list_approvals
approve-Inv approver id rationale db v =
    let added : Inv (add_approval id approver rationale db).1 =
      add_approval-Inv id approver rationale db v in
    elim (Option-cases (find_first (λ a. a.id == id) db.actions)) [
      | inl e ↦ ground arith
      | inr (action, e) ↦ grind (
        arith,
        activate-Inv id approver rationale db action v e,
        record_audit-Inv,
        set_user_status-Inv,
      )
    ]

create_appeal-Inv : (row : Appeal) (db : Db) → Inv db → Inv (create_appeal row db).1
unfolding create_appeal
create_appeal-Inv row db v = same_rows-Inv db _ _ _ v

decide-Inv :
    (id : ℕ) (decision : TrustSafety.AppealStatus) (reviewer : ℕ) (rationale : List ℕ) (now : ℕ)
    (db : Db)
    → Inv db
    → Inv (decide id decision reviewer rationale now db).1
unfolding decide
decide-Inv id decision reviewer rationale now db v = same_rows-Inv db _ _ _ v

pub create-Inv :
    (user action_id : ℕ) (reason : List ℕ) (id now : ℕ) (db : Db)
    → Inv db
    → Inv (create user action_id reason id now db).1
unfolding create find_action
create-Inv user action_id reason id now db v = grind (arith, create_appeal-Inv, record_audit-Inv)

pub review-Inv :
    (reviewer id : ℕ) (decision : Decision) (rationale : List ℕ) (now : ℕ) (db : Db)
    → Inv db
    → Inv (review reviewer id decision rationale now db).1
unfolding review find_action find_appeal
review-Inv reviewer id decision rationale now db v =
    grind (arith, decide-Inv, reverse_action-Inv, set_user_status-Inv, record_audit-Inv)

pub start-Inv : (db : Db) → db.actions ≡ [] → Inv db
unfolding Inv
start-Inv db e = record { keyed = rw e tt; backed = rw e tt }

pub Inv-IsBacked : (db : Db) → Inv db → All (IsBacked db.approvals) db.actions
unfolding Inv
Inv-IsBacked db v = v.backed
