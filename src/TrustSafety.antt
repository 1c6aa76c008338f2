-- ===== src/TrustSafety.antt =====
-- apps/api/src/modules/trust-safety: the rows of the moderation tables (packages/db/src/schema/
-- safety.ts), the enforcement ladder (enforcement-ladder.ts, report-catalogue.ts) and the
-- repositories (moderation-actions.repository.ts, appeals.repository.ts). The children model the
-- services and prove their properties. A text is the list of its UTF-16 code units.
pub mod Actions
pub mod Appeals
pub mod TwoAdmins
pub mod History
pub mod Outcomes
pub mod Reviews
mod Examples
use convene.Common.{
  ℕ, ◌+◌, ◌*◌, Bool, true, false, ◌&&◌, ◌||◌, Option, none, some, List, [], ◌∷◌, ◌==◌, leb, opt_eq,
  if◌then◌else◌, select, find_first, update_where, insert,
}
use convene.Errors.{M, pure, modify, gets, ◌>>=◌, ◌>>◌}

pub data ModerationActionType : Type 0 where
  notice warning throttle shadow_limit suspend ban reverse : ModerationActionType

pub data ActionStatus : Type 0 where
  pending_approval active reversed : ActionStatus

pub data AppealStatus : Type 0 where
  pending upheld overturned : AppealStatus

pub data UserStatus : Type 0 where
  pending_verification active restricted shadow_limited suspended deleted : UserStatus

pub record ModerationAction : Type 0 where
  pub id : ℕ
  pub target_user_id : Option ℕ
  pub report_id : Option ℕ
  pub admin_id : Option ℕ
  pub action : ModerationActionType
  pub policy_clause : List ℕ
  pub rationale : List ℕ
  pub status : ActionStatus
  pub expires_at : Option ℕ
  pub reversed_by : Option ℕ
  pub reversed_at : Option ℕ

pub record Approval : Type 0 where
  pub moderation_action_id : ℕ
  pub admin_id : ℕ
  pub rationale : List ℕ

pub record Appeal : Type 0 where
  pub id : ℕ
  pub moderation_action_id : ℕ
  pub user_id : ℕ
  pub reason : List ℕ
  pub status : AppealStatus
  pub reviewer_admin_id : Option ℕ
  pub decision_rationale : Option (List ℕ)
  pub decided_at : Option ℕ
  pub sla_due_at : ℕ

pub record User : Type 0 where
  pub id : ℕ
  pub status : UserStatus

pub data AuditAction : Type 0 where
  ban_requested action_applied ban_approved ban_activated action_reversed : AuditAction
  appeal_filed appeal_decided : AuditAction

pub record AuditEntry : Type 0 where
  pub actor_id : ℕ
  pub action : AuditAction
  pub entity_id : ℕ

pub record Db : Type 0 where
  pub actions : List ModerationAction
  pub approvals : List Approval
  pub appeals : List Appeal
  pub users : List User
  pub audit_logs : List AuditEntry

pub requires_two_admin_approval : ModerationActionType → Bool
requires_two_admin_approval ban = true
requires_two_admin_approval _ = false

-- `some none` is the permanent entry of `ban`; `none` is a missing key.
pub ladder_durations_days : ModerationActionType → Option (Option ℕ)
ladder_durations_days throttle = some (some 7)
ladder_durations_days shadow_limit = some (some 14)
ladder_durations_days suspend = some (some 30)
ladder_durations_days ban = some none
ladder_durations_days _ = none

abbrev pub appeal_sla_hours : ℕ
appeal_sla_hours = 72

-- Times are milliseconds.
expiry_after : Option (Option ℕ) → ℕ → Option ℕ
expiry_after (some (some days)) from = some (from + days * 24 * 60 * 60 * 1000)
expiry_after _ from = none

pub default_expiry_for : ModerationActionType → ℕ → Option ℕ
unfolding ladder_durations_days expiry_after
default_expiry_for action from = expiry_after (ladder_durations_days action) from

pub user_status_for_action : ModerationActionType → Option UserStatus
user_status_for_action throttle = some restricted
user_status_for_action shadow_limit = some shadow_limited
user_status_for_action suspend = some suspended
user_status_for_action ban = some suspended
user_status_for_action _ = none

-- JavaScript's white space, and `!text.trim()`.
abbrev pub is_space : ℕ → Bool
is_space c =
    (leb 9 c && leb c 13)
    || c == 32
    || c == 0xa0
    || c == 0x1680
    || (leb 0x2000 c && leb c 0x200a)
    || c == 0x2028
    || c == 0x2029
    || c == 0x202f
    || c == 0x205f
    || c == 0x3000
    || c == 0xfeff

pub is_blank : List ℕ → Bool
is_blank [] = true
is_blank (c ∷ cs) = is_space c && is_blank cs

-- moderation-actions.repository.ts
pub create_action : ModerationAction → M Db ModerationAction
create_action row db = pure row (record db { actions = insert row db.actions })

pub find_action : ℕ → M Db (Option ModerationAction)
find_action id = gets λ db. find_first (λ a. a.id == id) db.actions

set_action : ℕ → (ModerationAction → ModerationAction) → M Db (Option ModerationAction)
set_action id f db =
    let rows = update_where (λ a. a.id == id) f db.actions in
    pure (find_first (λ a. a.id == id) rows) (record db { actions = rows })

abbrev pub activated_row : ModerationAction → ModerationAction
activated_row a = record a { status = active }

abbrev pub reversed_row : ℕ → ℕ → ModerationAction → ModerationAction
reversed_row by now a = record a {
  status = reversed;
  reversed_by = some by;
  reversed_at = some now;
}

pub activate : ℕ → M Db (Option ModerationAction)
unfolding set_action
activate id = set_action id activated_row

pub reverse_action : ℕ → ℕ → ℕ → M Db (Option ModerationAction)
unfolding set_action
reverse_action id by now = set_action id (reversed_row by now)

pub add_approval : ℕ → ℕ → List ℕ → M Db (Unit {0})
add_approval id admin rationale = modify λ db. record db {
  approvals =
      insert (record { moderation_action_id = id; admin_id = admin; rationale = rationale })
        db.approvals;
}

pub list_approvals : ℕ → M Db (List Approval)
list_approvals id = gets λ db. select (λ a. a.moderation_action_id == id) db.approvals

pub set_user_status : ℕ → UserStatus → M Db (Unit {0})
set_user_status user status = modify λ db. record db {
  users = update_where (λ u. u.id == user) (λ u. record u { status = status }) db.users;
}

-- The status of a user, if there is one.
pub status_of : ℕ → Db → Option User
status_of user db = find_first (λ u. u.id == user) db.users

-- appeals.repository.ts
pub create_appeal : Appeal → M Db Appeal
create_appeal row db = pure row (record db { appeals = insert row db.appeals })

pub find_appeal : ℕ → M Db (Option Appeal)
find_appeal id = gets λ db. find_first (λ a. a.id == id) db.appeals

pub decide : ℕ → AppealStatus → ℕ → List ℕ → ℕ → M Db (Option Appeal)
decide id decision reviewer rationale now db =
    let rows =
      update_where (λ a. a.id == id)
        (λ a. record a {
          status = decision;
          reviewer_admin_id = some reviewer;
          decision_rationale = some rationale;
          decided_at = some now;
        })
        db.appeals in
    pure (find_first (λ a. a.id == id) rows) (record db { appeals = rows })

-- audit-log.repository.ts: `record`.
pub record_audit : ℕ → AuditAction → ℕ → M Db (Unit {0})
record_audit actor action entity = modify λ db. record db {
  audit_logs =
      insert (record { actor_id = actor; action = action; entity_id = entity }) db.audit_logs;
}
