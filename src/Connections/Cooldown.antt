-- ===== src/Connections/Cooldown.antt =====
-- connections.service.ts: how long a sender waits after a request that came to nothing or a connection
-- that was removed (assertNoCooldown), with the queries of connections.repository.ts that it reads.
use convene.Common.{
  ℕ, ◌+◌, ◌-◌, ◌*◌, min, max, Bool, true, false, ◌&&◌, Option, none, some, ltb, leb, ◌==◌, select,
  newest, count, is_some, or_else, ceil_seconds,
}
use convene.Errors.{
  M, pure, throw_if, app_error, app_error_retry, AppError, ErrorClass, ErrorCode, ◌>>◌,
}
use convene.Connections.{
  RequestStatus, pending, accepted, rejected, cancelled, expired, Request, Connection, Db,
}

abbrev pub cooldown_days_rejected : ℕ
cooldown_days_rejected = 30

abbrev pub cooldown_days_expired : ℕ
cooldown_days_expired = 7

abbrev pub cooldown_days_cancelled : ℕ
cooldown_days_cancelled = 1

abbrev pub cooldown_days_removed : ℕ
cooldown_days_removed = 7

abbrev pub day_ms : ℕ
day_ms = 24 * 60 * 60 * 1000

-- `status IN ('rejected', 'expired', 'cancelled')`.
abbrev pub is_terminal : RequestStatus → Bool
is_terminal pending = false
is_terminal accepted = false
is_terminal rejected = true
is_terminal cancelled = true
is_terminal expired = true

abbrev pub is_rejected : RequestStatus → Bool
is_rejected rejected = true
is_rejected pending = false
is_rejected accepted = false
is_rejected cancelled = false
is_rejected expired = false

abbrev pub is_between : ℕ → ℕ → Request → Bool
is_between sender recipient r = r.sender_id == sender && r.recipient_id == recipient

abbrev pub is_terminal_between : ℕ → ℕ → Request → Bool
is_terminal_between sender recipient r = is_between sender recipient r && is_terminal r.status

abbrev pub is_rejected_between : ℕ → ℕ → Request → Bool
is_rejected_between sender recipient r = is_between sender recipient r && is_rejected r.status

-- Every answer sets `responded_at`.
abbrev pub responded : Request → ℕ
responded r = or_else r.responded_at 0

unfoldable pub find_most_recent_terminal_request : ℕ → ℕ → Db → Option Request
find_most_recent_terminal_request sender recipient db =
    newest responded (select (is_terminal_between sender recipient) db.requests)

unfoldable pub count_rejected_requests : ℕ → ℕ → Db → ℕ
count_rejected_requests sender recipient db =
    count (is_rejected_between sender recipient) db.requests

abbrev pub is_removed_pair : ℕ → ℕ → Connection → Bool
is_removed_pair a b c = c.user_a_id == a && (c.user_b_id == b && is_some c.removed_at)

unfoldable pub find_most_recent_removal : ℕ → ℕ → Db → Option ℕ
find_most_recent_removal a b db =
    elim (newest (λ c. or_else c.removed_at 0)
      (select (is_removed_pair (min a b) (max a b)) db.connections)) [
        | none ↦ none
        | some c ↦ c.removed_at
      ]

abbrev pub cooldown_active : AppError
cooldown_active = app_error ErrorClass.conflict_app_error ErrorCode.cooldown_active

-- `retryAfterMs > 0`, of times that a subtraction of natural numbers does not lose.
abbrev pub assert_past_cooldown : {S : Type 0} → ℕ → ℕ → ℕ → M S (Unit {0})
assert_past_cooldown since days now = throw_if (ltb now (since + days * day_ms)) (
    app_error_retry ErrorClass.conflict_app_error ErrorCode.cooldown_active
      (ceil_seconds (since + days * day_ms - now)))

-- What the last terminal request asks of the sender.
abbrev pub assert_past_request : {S : Type 0} → RequestStatus → ℕ → ℕ → ℕ → M S (Unit {0})
assert_past_request pending rejections since now = pure tt
assert_past_request accepted rejections since now = pure tt
assert_past_request rejected rejections since now =
    throw_if (leb 2 rejections) cooldown_active
    >> assert_past_cooldown since cooldown_days_rejected now
assert_past_request cancelled rejections since now =
    assert_past_cooldown since cooldown_days_cancelled now
assert_past_request expired rejections since now =
    assert_past_cooldown since cooldown_days_expired now

abbrev pub assert_past_removal : {S : Type 0} → Option ℕ → ℕ → M S (Unit {0})
assert_past_removal none now = pure tt
assert_past_removal (some at) now = assert_past_cooldown at cooldown_days_removed now

abbrev pub assert_past_terminal : {S : Type 0} → Option Request → ℕ → ℕ → M S (Unit {0})
assert_past_terminal none rejections now = pure tt
assert_past_terminal (some r) rejections now = elim r.responded_at [
  | none ↦ pure tt
  | some since ↦ assert_past_request r.status rejections since now
]

unfoldable pub assert_no_cooldown : {S : Type 0} → ℕ → ℕ → ℕ → Db → M S (Unit {0})
assert_no_cooldown sender recipient now db =
    assert_past_removal (find_most_recent_removal sender recipient db) now
    >> assert_past_terminal (find_most_recent_terminal_request sender recipient db)
        (count_rejected_requests sender recipient db) now
