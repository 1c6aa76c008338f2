-- ===== src/TrustSafety/Examples.antt =====
-- Moderation calls on small databases.
use convene.Common.{◌≡◌, refl, ◌⊎◌, ◌||◌, true, false, none, some, [], ◌∷◌, arith, All, insert}
use convene.Errors.{ErrorCode, ok, err, app_error, validation_app_error}
use convene.TrustSafety.{
  ModerationAction, ActionStatus, Appeal, UserStatus, Db, ban, pending, pending_approval,
  user_status_for_action, requires_two_admin_approval, is_blank, find_action, list_approvals,
  create_action, record_audit, set_user_status, find_appeal, decide, activated_row, add_approval,
  activate, default_expiry_for, reverse_action,
}
use convene.TrustSafety.Actions.{
  ApplyModerationActionInput, apply, approve, new_action, distinct_admins, set_of_admins, set_add,
}
use convene.TrustSafety.Appeals.{overturn, uphold, review}
use convene.TrustSafety.TwoAdmins.{IsBacked}
use convene.TrustSafety.History.{start, next, step, applies, approves, Reach-IsBacked}
use convene.TrustSafety.Outcomes.{
  apply_lem, users_after, rung, lasts_until, approve-throws, approve-activates,
}
use convene.TrustSafety.Reviews.{review_lem, review_twice, Decides, IsRefused, is_ok, decided_row}

abbrev empty : Db
empty = record {
  actions = [];
  approvals = [];
  appeals = [];
  users = record { id = 7; status = UserStatus.active } ∷ [];
  audit_logs = [];
}

abbrev ban_input : ApplyModerationActionInput
ban_input = record {
  target_user_id = 7;
  report_id = none;
  action = ban;
  policy_clause = 67 ∷ [];
  rationale = 82 ∷ [];
  expires_at = none;
}

abbrev after_ban : Db
after_ban = step empty (applies 1 ban_input 100 5000)

abbrev after_approval : Db
after_approval = step after_ban (approves 2 100 (82 ∷ []))

-- The ban is pending until admin 2 approves it.
ban_pending : All (λ a. a.status ≡ pending_approval) after_ban.actions
unfolding step apply new_action is_blank requires_two_admin_approval create_action record_audit
ban_pending = (refl, tt)

ban_active :
    (All (λ a. a.status ≡ ActionStatus.active) after_approval.actions)
    × (All (λ u. u.status ≡ UserStatus.suspended) after_approval.users)
unfolding step apply new_action is_blank requires_two_admin_approval create_action record_audit
    approve find_action list_approvals add_approval activate distinct_admins set_of_admins set_add
    user_status_for_action set_user_status
ban_active = ((refl, tt), (refl, tt))

Reach-IsBacked_example : All (IsBacked after_approval.approvals) after_approval.actions
Reach-IsBacked_example =
    Reach-IsBacked (
      next (next (start empty refl) (applies 1 ban_input 100 5000) tt) (approves 2 100 (82 ∷ []))
        tt)

apply_lem_example :
    let r = apply 1 ban_input 100 5000 empty in
    let meant = rung ban in
    (((is_blank ban_input.policy_clause || is_blank ban_input.rationale) ≡ true)
      × (r ≡ (err (app_error validation_app_error ErrorCode.policy_clause_required), empty)))
    ⊎ ((row : ModerationAction) × (r.0 ≡ ok row)
        × (r.1.actions ≡ insert row empty.actions)
        × ((is_blank ban_input.policy_clause || is_blank ban_input.rationale) ≡ false)
        × (row.id ≡ 100)
        × (row.action ≡ ban)
        × (row.admin_id ≡ some 1)
        × (row.target_user_id ≡ some 7)
        × (row.status ≡ meant.status)
        × (row.expires_at ≡ lasts_until none meant.days 5000)
        × (r.1.users ≡ users_after meant.user_status 7 empty.users))
apply_lem_example = apply_lem 1 ban_input 100 5000 empty

-- Admin 1 cannot approve the ban that admin 1 has requested.
same_admin :
    (approve 1 100 (82 ∷ []) after_ban).0
    ≡ err (app_error validation_app_error ErrorCode.ban_approval_same_admin)
unfolding step apply new_action is_blank requires_two_admin_approval create_action record_audit
    approve find_action list_approvals
same_admin = refl

approve-throws_example : (approve 1 100 (82 ∷ []) after_ban).1 ≡ after_ban
approve-throws_example = approve-throws 1 100 (82 ∷ []) after_ban same_admin

abbrev pending_ban : ModerationAction
pending_ban = new_action 1 ban_input 100 5000

approve-activates_example : (approve 2 100 (82 ∷ []) after_ban).0 ≡ ok (activated_row pending_ban)
unfolding step apply new_action is_blank requires_two_admin_approval create_action record_audit
    default_expiry_for
approve-activates_example =
    (approve-activates 2 100 (82 ∷ []) after_ban pending_ban 1 refl refl refl (omega arith) refl).0

abbrev appealed : Db
appealed = record after_approval {
  appeals =
      record {
        id = 200;
        moderation_action_id = 100;
        user_id = 7;
        reason = [];
        status = pending;
        reviewer_admin_id = none;
        decision_rationale = none;
        decided_at = none;
        sla_due_at = 9000;
      }
      ∷ [];
}

abbrev reviewed : Db
reviewed = (review 3 200 overturn (82 ∷ []) 6000 appealed).1

review_lem_example :
    ((appeal : Appeal) × (action : ModerationAction) × (Decides 3 200 overturn
        (82 ∷ [])
        6000
        appealed
        appeal
        action
        (review 3 200 overturn (82 ∷ []) 6000 appealed)))
    ⊎ (IsRefused 3 200 appealed
        × (is_ok (review 3 200 overturn (82 ∷ []) 6000 appealed).0 ≡ false)
        × (reviewed ≡ appealed))
review_lem_example = review_lem 3 200 overturn (82 ∷ []) 6000 appealed

abbrev decided_appeal : Appeal
decided_appeal = decided_row overturn 3 (82 ∷ []) 6000 (record {
  id = 200;
  moderation_action_id = 100;
  user_id = 7;
  reason = [];
  status = pending;
  reviewer_admin_id = none;
  decision_rationale = none;
  decided_at = none;
  sla_due_at = 9000;
})

review_twice_example : (review 4 200 uphold (82 ∷ []) 7000 reviewed).1 ≡ reviewed
unfolding step apply new_action is_blank requires_two_admin_approval create_action record_audit
    approve find_action list_approvals add_approval activate distinct_admins set_of_admins set_add
    user_status_for_action set_user_status review find_appeal decide reverse_action
review_twice_example =
    (review_twice 3 4 200 overturn uphold (82 ∷ []) (82 ∷ []) 6000 7000 appealed
      {a = decided_appeal} refl).1
