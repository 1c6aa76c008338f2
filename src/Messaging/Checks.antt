-- ===== src/Messaging/Checks.antt =====
-- How a call that posts ends, and the checks, which only read.
use convene.Common.{ℕ, ◌+◌, ◌≡◌, inl, inr, Bool, some, arith, ◌⊎◌, Option-cases}
use convene.Errors.{ok, err, app_error, internal_error, internal_app_error}
use convene.Connections.{Conversation}
use convene.Messaging.{Message, Db}
use convene.Messaging.Repository.{SendMessageInput, posted, find_conversation_by_id, post_message}
use convene.Messaging.Service.{
  send_checks, assert_participant, assert_active_participant, assert_not_awaiting_reply, find_for,
}

-- How a call that posts ends.
pub post_message-cases :
    (conversation : ℕ) (make : ℕ → Message) (now : ℕ) (db : Db)
    → (post_message conversation make now db
        ≡ (err (app_error internal_app_error internal_error), db))
      ⊎ ((c : Conversation) × (find_conversation_by_id conversation db ≡ some c)
          × (post_message conversation make now db
              ≡ (ok (make (c.message_seq + 1)), posted (make (c.message_seq + 1)) now db)))
unfolding post_message
post_message-cases conversation make now db =
    elim (Option-cases (find_conversation_by_id conversation db)) [
      | inl n ↦ inl (ground arith)
      | inr (c, e) ↦ inr (c, e, ground arith)
    ]

assert_participant-same : (c user : ℕ) (db : Db) → (assert_participant c user db).1 ≡ db
unfolding assert_participant
assert_participant-same c user db = ground arith

pub assert_active_participant-same :
    (c user : ℕ) (db : Db) → (assert_active_participant c user db).1 ≡ db
unfolding assert_active_participant assert_participant
assert_active_participant-same c user db = ground arith

assert_not_awaiting_reply-same :
    (c user : ℕ) (db : Db) → (assert_not_awaiting_reply c user db).1 ≡ db
unfolding assert_not_awaiting_reply
assert_not_awaiting_reply-same c user db = ground arith

pub send_checks-same :
    (input : SendMessageInput) (is_rejected : Bool) (db : Db)
    → (send_checks input is_rejected db).1 ≡ db
unfolding send_checks assert_active_participant assert_participant assert_not_awaiting_reply
send_checks-same input is_rejected db = ground arith

pub find_for-same : (id user : ℕ) (db : Db) → (find_for id user db).1 ≡ db
unfolding assert_participant
find_for-same id user db = ground arith
