-- ===== src/TrustSafety/Appeals.antt =====
-- apps/api/src/modules/trust-safety/services/appeals.service.ts: a user appeals against an action,
-- and an admin reviews the appeal.
use convene.Common.{
  ℕ, ◌+◌, ◌*◌, Bool, true, false, not, Option, none, some, List, opt_eq, if◌then◌else◌,
}
use convene.Errors.{
  ErrorCode, M, pure, app_error, not_found_app_error, validation_app_error, internal_app_error,
  throw_if, or_throw, ◌>>=◌, ◌>>◌,
}
use convene.TrustSafety.{
  AppealStatus, ModerationAction, Appeal, UserStatus, Db, pending, upheld, overturned, appeal_filed,
  appeal_decided, appeal_sla_hours, find_action, reverse_action, set_user_status, create_appeal,
  find_appeal, decide, record_audit,
}

-- `!action || action.targetUserId !== userId`.
pub owned_action : ℕ → Option ModerationAction → Option ModerationAction
owned_action user none = none
owned_action user (some a) = if opt_eq a.target_user_id user then some a else none

unfoldable pub create : ℕ → ℕ → List ℕ → ℕ → ℕ → M Db Appeal
unfolding owned_action
create user action_id reason id now = do
  row ← find_action action_id
  action ←
      or_throw (owned_action user row)
        (app_error not_found_app_error ErrorCode.moderation_action_not_found)
  appeal ← create_appeal (record {
    id = id;
    moderation_action_id = action_id;
    user_id = user;
    reason = reason;
    status = pending;
    reviewer_admin_id = none;
    decision_rationale = none;
    decided_at = none;
    sla_due_at = now + appeal_sla_hours * 60 * 60 * 1000;
  })
  record_audit user appeal_filed appeal.id
  pure appeal

pub data Decision : Type 0 where
  uphold overturn : Decision

abbrev pub status_of_decision : Decision → AppealStatus
status_of_decision uphold = upheld
status_of_decision overturn = overturned

abbrev pub is_pending : AppealStatus → Bool
is_pending pending = true
is_pending _ = false

set_active_if : Option ℕ → M Db (Unit {0})
set_active_if none = pure tt
set_active_if (some user) = set_user_status user UserStatus.active

-- What an overturned appeal does to the action and to the user.
unfoldable pub carry_out : Decision → ModerationAction → ℕ → ℕ → M Db (Unit {0})
unfolding set_active_if
carry_out uphold action reviewer now = pure tt
carry_out overturn action reviewer now = do
  reversed ← reverse_action action.id reviewer now
  set_active_if action.target_user_id

unfoldable pub review : ℕ → ℕ → Decision → List ℕ → ℕ → M Db Appeal
unfolding carry_out
review reviewer id decision rationale now = do
  row ← find_appeal id
  appeal ← or_throw row (app_error not_found_app_error ErrorCode.appeal_not_found)
  throw_if (not (is_pending appeal.status))
      (app_error validation_app_error ErrorCode.action_not_pending_approval)
  found ← find_action appeal.moderation_action_id
  action ← or_throw found (app_error not_found_app_error ErrorCode.moderation_action_not_found)
  throw_if (opt_eq action.admin_id reviewer)
      (app_error validation_app_error ErrorCode.appeal_reviewer_conflict)
  updated ← decide id (status_of_decision decision) reviewer rationale now
  decided ← or_throw updated (app_error internal_app_error ErrorCode.internal_error)
  carry_out decision action reviewer now
  record_audit reviewer appeal_decided id
  pure decided
