-- ===== src/TrustSafety/Actions.antt =====
-- apps/api/src/modules/trust-safety/services/moderation-actions.service.ts: a moderator applies,
-- approves and reverses actions. The ids that the database draws are arguments.
use convene.Common.{
  ℕ, Bool, true, false, not, ◌||◌, Option, none, some, List, [], ◌∷◌, ◌==◌, leb, opt_eq, length,
  any, if◌then◌else◌, insert,
}
use convene.Errors.{
  ErrorCode, M, pure, app_error, not_found_app_error, validation_app_error, internal_app_error,
  throw_if, or_throw, ◌>>=◌, ◌>>◌,
}
use convene.TrustSafety.{
  ModerationActionType, ActionStatus, ModerationAction, Approval, UserStatus, Db, pending_approval,
  ban_requested, action_applied, ban_approved, ban_activated, action_reversed,
  requires_two_admin_approval, default_expiry_for, user_status_for_action, is_blank, create_action,
  find_action, activate, reverse_action, add_approval, list_approvals, set_user_status,
  record_audit,
}

pub record ApplyModerationActionInput : Type 0 where
  pub target_user_id : ℕ
  pub report_id : Option ℕ
  pub action : ModerationActionType
  pub policy_clause : List ℕ
  pub rationale : List ℕ
  pub expires_at : Option ℕ

-- `if (status && user) await this.repo.setUserStatus(user, status)`.
set_status_if : Option UserStatus → Option ℕ → M Db (Unit {0})
set_status_if (some status) (some user) = set_user_status user status
set_status_if _ _ = pure tt

abbrev or_expiry : Option ℕ → Option ℕ → Option ℕ
or_expiry (some t) d = some t
or_expiry none d = d

-- The row that `apply` inserts.
unfoldable pub new_action : ℕ → ApplyModerationActionInput → ℕ → ℕ → ModerationAction
new_action actor input id now = record {
  id = id;
  target_user_id = some input.target_user_id;
  report_id = input.report_id;
  admin_id = some actor;
  action = input.action;
  policy_clause = input.policy_clause;
  rationale = input.rationale;
  status =
      if requires_two_admin_approval input.action then pending_approval else ActionStatus.active;
  expires_at = or_expiry input.expires_at (default_expiry_for input.action now);
  reversed_by = none;
  reversed_at = none;
}

unfoldable pub apply : ℕ → ApplyModerationActionInput → ℕ → ℕ → M Db ModerationAction
unfolding new_action set_status_if
apply actor input id now = do
  throw_if (is_blank input.policy_clause || is_blank input.rationale)
      (app_error validation_app_error ErrorCode.policy_clause_required)
  let needs_approval = requires_two_admin_approval input.action
  created ← create_action (new_action actor input id now)
  record_audit actor (if needs_approval then ban_requested else action_applied) created.id
  if needs_approval
      then pure tt
      else set_status_if (user_status_for_action input.action) (some input.target_user_id)
  pure created

-- A JavaScript `Set` of ids, as a list without repetitions.
unfoldable pub set_add : ℕ → List ℕ → List ℕ
set_add a s = if any (λ x. x == a) s then s else insert a s

unfoldable pub set_of_admins : List Approval → List ℕ
unfolding set_add
set_of_admins [] = []
set_of_admins (a ∷ rest) = set_add a.admin_id (set_of_admins rest)

add_if_some : Option ℕ → List ℕ → List ℕ
add_if_some none s = s
add_if_some (some a) s = set_add a s

-- The admins who stand behind an action once `approver` has approved it.
unfoldable pub distinct_admins : List Approval → ℕ → Option ℕ → List ℕ
unfolding set_of_admins add_if_some
distinct_admins existing approver acted =
    add_if_some acted (set_add approver (set_of_admins existing))

unfoldable pub activate_approved : ℕ → ℕ → M Db ModerationAction
unfolding set_status_if
activate_approved approver id = do
  row ← activate id
  activated ← or_throw row (app_error internal_app_error ErrorCode.internal_error)
  set_status_if (user_status_for_action activated.action) activated.target_user_id
  record_audit approver ban_activated id
  pure activated

abbrev is_pending_approval : ActionStatus → Bool
is_pending_approval pending_approval = true
is_pending_approval _ = false

unfoldable pub approve : ℕ → ℕ → List ℕ → M Db ModerationAction
unfolding activate_approved distinct_admins
approve approver id rationale = do
  row ← find_action id
  action ← or_throw row (app_error not_found_app_error ErrorCode.moderation_action_not_found)
  throw_if (not (is_pending_approval action.status))
      (app_error validation_app_error ErrorCode.action_not_pending_approval)
  throw_if (opt_eq action.admin_id approver)
      (app_error validation_app_error ErrorCode.ban_approval_same_admin)
  existing ← list_approvals id
  throw_if (any (λ a. a.admin_id == approver) existing)
      (app_error validation_app_error ErrorCode.already_approved)
  add_approval id approver rationale
  record_audit approver ban_approved id
  if leb 2 (length (distinct_admins existing approver action.admin_id))
      then activate_approved approver id
      else pure action

-- `targetUserId && userStatusForAction(action)`, which resets the user to "active".
lift_if : Option UserStatus → Option ℕ → M Db (Unit {0})
lift_if (some status) (some user) = set_user_status user UserStatus.active
lift_if _ _ = pure tt

unfoldable pub reverse : ℕ → ℕ → ℕ → M Db ModerationAction
unfolding lift_if
reverse actor id now = do
  row ← find_action id
  action ← or_throw row (app_error not_found_app_error ErrorCode.moderation_action_not_found)
  updated ← reverse_action id actor now
  reversed ← or_throw updated (app_error internal_app_error ErrorCode.internal_error)
  lift_if (user_status_for_action reversed.action) reversed.target_user_id
  record_audit actor action_reversed id
  pure reversed
