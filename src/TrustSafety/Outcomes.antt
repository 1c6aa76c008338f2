-- ===== src/TrustSafety/Outcomes.antt =====
-- What `apply` and `approve` do, on every branch (moderation-actions.service.ts).
use convene.Common.{
  ℕ, ◌+◌, ◌*◌, ◌≡◌, ◌≢◌, refl, ◌⊎◌, inl, inr, true, false, ◌||◌, Option, none, some, List, arith,
  ◌==◌, find_first, find_first-update, update_where, insert, Bool-cases, Option-cases, any, select,
  length, ◌≤◌, any-append, any-pos, length-append, [], ◌∷◌, ◌++◌,
}
use convene.Errors.{AppError, ErrorCode, ok, err, app_error, validation_app_error}
use convene.TrustSafety.{
  ModerationAction, ModerationActionType, ActionStatus, notice, warning, throttle, shadow_limit,
  suspend, reverse, restricted, shadow_limited, suspended, default_expiry_for, AppealStatus,
  UserStatus, User, Appeal, Db, pending_approval, ban, pending, upheld, reversed, overturned,
  activated_row, reversed_row, activate, reverse_action, create_action, set_user_status,
  record_audit, add_approval, list_approvals, find_action, find_appeal, decide, is_blank,
  user_status_for_action, requires_two_admin_approval,
}
use convene.TrustSafety
use convene.TrustSafety.Actions.{
  ApplyModerationActionInput, apply, approve, new_action, distinct_admins, set_add, set_of_admins,
}

-- The users after an action takes effect: the target's status follows the ladder.
abbrev pub users_after : Option UserStatus → ℕ → List User → List User
users_after none user users = users
users_after (some status) user users =
    update_where (λ u. u.id == user) (λ u. record u { status = status }) users

-- The same for a target that may have been deleted.
abbrev pub users_for : Option UserStatus → Option ℕ → List User → List User
users_for (some status) (some user) users = users_after (some status) user users
users_for _ _ users = users

-- What the ladder is meant to do: the status an action is recorded with, the one its target takes
-- at once, and the days it lasts where no other expiry is given.
pub record Rung : Type 0 where
  pub status : ActionStatus
  pub user_status : Option UserStatus
  pub days : Option ℕ

abbrev pub at_once : Option UserStatus → Option ℕ → Rung
at_once user_status days = record {
  status = ActionStatus.active;
  user_status = user_status;
  days = days;
}

abbrev pub rung : ModerationActionType → Rung
rung notice = at_once none none
rung warning = at_once none none
rung throttle = at_once (some restricted) (some 7)
rung shadow_limit = at_once (some shadow_limited) (some 14)
rung suspend = at_once (some suspended) (some 30)
rung ban = record { status = pending_approval; user_status = none; days = none }
rung reverse = at_once none none

abbrev pub lasts_until : Option ℕ → Option ℕ → ℕ → Option ℕ
lasts_until (some given) days now = some given
lasts_until none none now = none
lasts_until none (some days) now = some (now + days * 86400000)

row_of-rung :
    (actor : ℕ) (input : ApplyModerationActionInput) (id now : ℕ)
    → let row = new_action actor input id now in
      let meant = rung input.action in
      (row.status ≡ meant.status) × (row.expires_at ≡ lasts_until input.expires_at meant.days now)
unfolding new_action requires_two_admin_approval default_expiry_for
row_of-rung actor input id now = (ground arith, ground arith)

-- A blank policy clause or rationale is refused and nothing is written. Otherwise the action is
-- recorded for its target and its admin, as the ladder has it: a ban as pending, with no expiry and
-- no change of any user; a throttle, a shadow limit and a suspension as active, with their targets
-- restricted for 7 days, shadow limited for 14 and suspended for 30; a notice, a warning and a
-- reversal as active, with no expiry and no change. An expiry that is given stands instead.
pub apply_lem :
    (actor : ℕ) (input : ApplyModerationActionInput) (id now : ℕ) (db : Db)
    → let r = apply actor input id now db in
      let meant = rung input.action in
      (((is_blank input.policy_clause || is_blank input.rationale) ≡ true)
        × (r ≡ (err (app_error validation_app_error ErrorCode.policy_clause_required), db)))
      ⊎ ((row : ModerationAction) × (r.0 ≡ ok row)
          × (r.1.actions ≡ insert row db.actions)
          × ((is_blank input.policy_clause || is_blank input.rationale) ≡ false)
          × (row.id ≡ id)
          × (row.action ≡ input.action)
          × (row.admin_id ≡ some actor)
          × (row.target_user_id ≡ some input.target_user_id)
          × (row.status ≡ meant.status)
          × (row.expires_at ≡ lasts_until input.expires_at meant.days now)
          × (r.1.users ≡ users_after meant.user_status input.target_user_id db.users))
unfolding apply requires_two_admin_approval user_status_for_action set_user_status record_audit
    create_action new_action
apply_lem actor input id now db =
    elim (Bool-cases (is_blank input.policy_clause || is_blank input.rationale)) [
      | inl t ↦ inl (t, ground arith)
      | inr f ↦
          let meant = row_of-rung actor input id now in
          inr (
            new_action actor input id now,
            ground arith,
            ground arith,
            f,
            refl,
            refl,
            refl,
            refl,
            meant.0,
            meant.1,
            ground arith,
          )
    ]

activate-found :
    (id : ℕ) (db : Db) (action : ModerationAction)
    → find_first (λ a. a.id == id) db.actions ≡ some action
    → (activate id db).0 ≡ ok (some (activated_row action))
unfolding activate
activate-found id db action e =
    ground
      (arith, find_first-update (λ a. a.id) id activated_row db.actions {a = action} (λ a. refl) e)

reverse_action-found :
    (id by now : ℕ) (db : Db) (action : ModerationAction)
    → find_first (λ a. a.id == id) db.actions ≡ some action
    → (reverse_action id by now db).0 ≡ ok (some (reversed_row by now action))
unfolding reverse_action
reverse_action-found id by now db action e = ground (
  arith,
  find_first-update (λ a. a.id) id (reversed_row by now) db.actions {a = action} (λ a. refl) e,
)

-- An approval that throws has written nothing, although it runs in no transaction.
pub approve-throws :
    (approver id : ℕ) (rationale : List ℕ) (db : Db) {e : AppError}
    → (approve approver id rationale db).0 ≡ err e
    → (approve approver id rationale db).1 ≡ db
unfolding approve find_action list_approvals add_approval record_audit set_user_status
approve-throws approver id rationale db {e} h =
    elim (Option-cases (find_first (λ a. a.id == id) db.actions)) [
      | inl n ↦ ground arith
      | inr (action, f) ↦
          let later =
            record_audit approver TrustSafety.ban_approved id
              (add_approval id approver rationale db).1 in
          ground (arith, activate-found id later.1 action f)
    ]

two_members :
    (s : List ℕ) (a b : ℕ)
    → any (λ x. x == a) s ≡ true
    → any (λ x. x == b) s ≡ true
    → (a == b) ≡ false
    → 2 ≤ length s
two_members [] a b p q n = absurd (ground arith)
two_members (x ∷ s) a b p q n = ground (arith, any-pos (λ x. x == a) s, any-pos (λ x. x == b) s)

two_of_distinct :
    (s : List ℕ) (approver acted : ℕ)
    → (acted == approver) ≡ false
    → 2 ≤ length (set_add acted (set_add approver s))
unfolding set_add
two_of_distinct s approver acted h = ground (
  arith,
  two_members s acted approver,
  any-append (λ x. x == acted) s (approver ∷ []),
  any-pos (λ x. x == acted) s,
  any-pos (λ x. x == approver) s,
  length-append s (approver ∷ []),
  length-append s (acted ∷ []),
  length-append (s ++ approver ∷ []) (acted ∷ []),
)

-- An approval of a pending action by an admin who is not the one who applied it, and who has not
-- approved it before, puts it in force: the call returns the active row, and the target's status
-- follows the ladder.
pub approve-activates :
    (approver id : ℕ) (rationale : List ℕ) (db : Db) (action : ModerationAction) (acted : ℕ)
    → find_first (λ a. a.id == id) db.actions ≡ some action
    → action.status ≡ pending_approval
    → action.admin_id ≡ some acted
    → acted ≢ approver
    → any (λ a. a.admin_id == approver) (select (λ a. a.moderation_action_id == id) db.approvals)
      ≡ false
    → let r = approve approver id rationale db in
      (r.0 ≡ ok (activated_row action))
      × (r.1.actions ≡ update_where (λ a. a.id == id) activated_row db.actions)
      × (r.1.users
          ≡ users_for (user_status_for_action action.action) action.target_user_id db.users)
unfolding approve find_action list_approvals add_approval record_audit set_user_status activate
    distinct_admins
approve-activates approver id rationale db action acted f p o n d =
    let mine = select (λ a. a.moderation_action_id == id) db.approvals in
    let enough = two_of_distinct (set_of_admins mine) approver acted (ground arith) in
    let later =
      find_first-update (λ a. a.id) id activated_row db.actions {a = action} (λ a. refl) f in
    ground (arith, enough, later)
