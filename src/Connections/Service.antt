-- ===== src/Connections/Service.antt =====
-- apps/api/src/modules/connections/services/connections.service.ts: the recipient accepts or rejects a
-- request, the sender withdraws it; and services/blocks.service.ts.
use convene.Common.{ℕ, not, ◌==◌, find_first, insert}
use convene.Errors.{
  M, AppError, pure, throw_if, or_throw, modify, gets, ◌>>=◌, ◌>>◌, app_error, ErrorClass,
  ErrorCode,
}
use convene.Connections.{Connection, Db, is_id}
use convene.Connections.Requests.{
  Draw, accept_request, reject_request, withdraw_request, is_blocked_either_way, create_block,
  delete_block, freeze_conversation_between,
}

abbrev pub request_not_found : AppError
request_not_found = app_error ErrorClass.not_found_app_error ErrorCode.request_not_found

abbrev pub not_allowed : AppError
not_allowed = app_error ErrorClass.forbidden_app_error ErrorCode.forbidden

abbrev pub pair_blocked : AppError
pair_blocked = app_error ErrorClass.forbidden_app_error ErrorCode.blocked

abbrev pub no_longer_pending : AppError
no_longer_pending = app_error ErrorClass.conflict_app_error ErrorCode.conflict

abbrev pub notify : ℕ → Db → Db
notify user db = record db { notified = insert user db.notified }

unfoldable pub accept : Draw → ℕ → ℕ → ℕ → M Db Connection
accept draw recipient id now = gets (λ db. find_first (is_id id) db.requests) >>= λ found.
    or_throw found request_not_found >>= λ existing.
    throw_if (not (existing.recipient_id == recipient)) not_allowed
    >> (gets (is_blocked_either_way existing.sender_id existing.recipient_id) >>= λ blocked.
        throw_if blocked pair_blocked
        >> (accept_request draw id now >>= λ result.
            or_throw result no_longer_pending >>= λ connection.
            modify (notify existing.sender_id) >> pure connection))

unfoldable pub reject : ℕ → ℕ → ℕ → M Db (Unit {0})
reject recipient id now = gets (λ db. find_first (is_id id) db.requests) >>= λ found.
    or_throw found request_not_found >>= λ existing.
    throw_if (not (existing.recipient_id == recipient)) not_allowed
    >> (reject_request id now >>= λ result. or_throw result no_longer_pending >>= λ row. pure tt)

unfoldable pub withdraw : ℕ → ℕ → ℕ → M Db (Unit {0})
withdraw sender id now = gets (λ db. find_first (is_id id) db.requests) >>= λ found.
    or_throw found request_not_found >>= λ existing.
    throw_if (not (existing.sender_id == sender)) not_allowed
    >> (withdraw_request id now >>= λ result. or_throw result no_longer_pending >>= λ row. pure tt)

unfoldable pub block : ℕ → ℕ → M Db (Unit {0})
block blocker blocked =
    throw_if (blocked == blocker) (app_error ErrorClass.bad_request_app_error ErrorCode.bad_request)
    >> (modify (create_block blocker blocked)
        >> modify (freeze_conversation_between blocker blocked))

unfoldable pub unblock : ℕ → ℕ → M Db (Unit {0})
unblock blocker blocked = modify (delete_block blocker blocked)
