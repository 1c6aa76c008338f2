-- ===== src/Messaging/Service.antt =====
-- apps/api/src/modules/messaging/services/messages.service.ts. The verdict of the moderation's fast path
-- on a text is an argument of a send; the previews of links and the pushes that a send starts, which never
-- fail it, are left out.
use convene.Common.{
  ℕ, Bool, true, false, not, Option, List, [], ◌∷◌, ◌==◌, leb, ltb, if◌then◌else◌, any, length,
  is_some, insert,
}
use convene.Errors.{
  M, ◌>>=◌, ◌>>◌, pure, throw_if, or_throw, gets, modify, app_error, not_found, forbidden, conflict,
  message_deleted, edit_window_expired, conversation_not_found, conversation_frozen, awaiting_reply,
  moderation_rejected, not_found_app_error, forbidden_app_error, gone_app_error, conflict_app_error,
  too_many_requests_app_error, validation_app_error,
}
use convene.Connections.{Conversation, ConversationState, active, frozen, archived}
use convene.Messaging.{
  Message, Event, message_sent, message_updated, message_deleted, reaction_set, reaction_removed,
  Db,
}
use convene.Messaging.Repository.{
  SendMessageInput, SendMessageResult, find_conversation_by_id, load_participant_ids,
  find_message_by_id, trailing_consecutive_sender_count, repo_send_message, post_message,
  forwarded_copy,
}
use convene.Messaging.Changes.{
  repo_edit_message, hide_for_user, delete_for_everyone, repo_set_reaction, repo_remove_reaction,
}

abbrev pub monologue_limit : ℕ
monologue_limit = 3

abbrev pub max_forward_targets : ℕ
max_forward_targets = 3

abbrev pub publish : Event → M Db (Unit {0})
publish e = modify (λ db. record db { events = insert e db.events })

-- `participantIds.includes(userId)`.
abbrev pub is_conversation_participant : List ℕ → ℕ → Bool
is_conversation_participant participants user = any (λ p. p == user) participants

abbrev pub is_open : ConversationState → Bool
is_open active = true
is_open frozen = false
is_open archived = false

unfoldable pub assert_participant : ℕ → ℕ → M Db Conversation
assert_participant conversation user =
    let missing = app_error not_found_app_error conversation_not_found in
    gets (find_conversation_by_id conversation) >>= λ found. or_throw found missing >>= λ c.
    gets (load_participant_ids conversation) >>= λ participants.
    throw_if (not (is_conversation_participant participants user)) missing >> pure c

unfoldable pub assert_active_participant : ℕ → ℕ → M Db (Unit {0})
assert_active_participant conversation user = assert_participant conversation user >>= λ c.
    throw_if (not (is_open c.state)) (app_error forbidden_app_error conversation_frozen)

unfoldable pub assert_not_awaiting_reply : ℕ → ℕ → M Db (Unit {0})
assert_not_awaiting_reply conversation sender =
    gets (trailing_consecutive_sender_count conversation sender monologue_limit) >>= λ streak.
    throw_if (leb monologue_limit streak) (app_error too_many_requests_app_error awaiting_reply)

-- The event of a send that is no replay.
abbrev pub publish_new : SendMessageResult → M Db SendMessageResult
publish_new result =
    if result.is_replay
    then pure result
    else (publish (message_sent result.message.conversation_id result.message) >> pure result)

-- What a send checks before it writes.
unfoldable pub send_checks : SendMessageInput → Bool → M Db (Unit {0})
send_checks input is_rejected =
    assert_active_participant input.conversation_id input.sender_id
    >> assert_not_awaiting_reply input.conversation_id input.sender_id
    >> throw_if is_rejected (app_error validation_app_error moderation_rejected)

unfoldable pub send_message : SendMessageInput → Bool → ℕ → ℕ → M Db SendMessageResult
send_message input is_rejected id now =
    send_checks input is_rejected >> repo_send_message input id now >>= publish_new

-- The write of an edit, and what a service makes of it.
abbrev pub run_edit : ℕ → ℕ → List ℕ → ℕ → M Db (Option Message)
run_edit id user body now =
    gets (repo_edit_message id user body now) >>= λ r. modify (λ db. r.1) >> pure r.0

unfoldable pub edit_message : ℕ → ℕ → List ℕ → ℕ → M Db Message
edit_message id user body now = gets (find_message_by_id id) >>= λ found.
    or_throw found (app_error not_found_app_error not_found) >>= λ existing.
    throw_if (not (existing.sender_id == user)) (app_error forbidden_app_error forbidden)
    >> throw_if (is_some existing.deleted_at) (app_error gone_app_error message_deleted)
    >> run_edit id user body now
    >>= λ updated. or_throw updated (app_error conflict_app_error edit_window_expired) >>= λ m.
        publish (message_updated existing.conversation_id m) >> pure m

abbrev pub run_delete : ℕ → ℕ → ℕ → M Db Bool
run_delete id user now =
    gets (delete_for_everyone id user now) >>= λ r. modify (λ db. r.1) >> pure r.0

pub data DeleteScope : Type 0 where
  me everyone : DeleteScope

abbrev pub delete_in : DeleteScope → Message → ℕ → ℕ → M Db (Unit {0})
delete_in me existing user now = modify (hide_for_user existing.id user)
delete_in everyone existing user now =
    throw_if (not (existing.sender_id == user)) (app_error forbidden_app_error forbidden)
    >> run_delete existing.id user now
    >>= λ deleted.
        throw_if (not deleted) (app_error conflict_app_error conflict)
        >> publish (message_deleted existing.conversation_id existing.id)

-- A message that is there, for a participant of its conversation.
abbrev pub find_for : ℕ → ℕ → M Db Message
find_for id user = gets (find_message_by_id id) >>= λ found.
    or_throw found (app_error not_found_app_error not_found) >>= λ existing.
    assert_participant existing.conversation_id user >>= λ c. pure existing

unfoldable pub delete_message : ℕ → ℕ → DeleteScope → ℕ → M Db (Unit {0})
delete_message id user scope now =
    find_for id user >>= λ existing. delete_in scope existing user now

unfoldable pub set_reaction : ℕ → ℕ → List ℕ → M Db (Unit {0})
set_reaction id user emoji = find_for id user >>= λ existing.
    modify (repo_set_reaction id existing.created_at user emoji)
    >> publish (reaction_set existing.conversation_id id user emoji)

unfoldable pub remove_reaction : ℕ → ℕ → M Db (Unit {0})
remove_reaction id user = find_for id user >>= λ existing.
    modify (repo_remove_reaction id user)
    >> publish (reaction_removed existing.conversation_id id user)

-- One target of a forward, with the id and the client id that its copy draws.
pub record Target : Type 0 where
  pub conversation_id : ℕ
  pub id : ℕ
  pub client_msg_id : ℕ

abbrev pub forward_to : Message → ℕ → ℕ → Target → M Db Message
forward_to original forwarder now t =
    assert_active_participant t.conversation_id forwarder
    >> post_message t.conversation_id
        (forwarded_copy original forwarder t.conversation_id t.id t.client_msg_id now) now
    >>= λ copy. publish (message_sent t.conversation_id copy) >> pure copy

abbrev pub forward_all : Message → ℕ → ℕ → List Target → M Db (List Message)
forward_all original forwarder now [] = pure []
forward_all original forwarder now (t ∷ ts) = forward_to original forwarder now t >>= λ copy.
    forward_all original forwarder now ts >>= λ copies. pure (copy ∷ copies)

unfoldable pub forward_message : ℕ → ℕ → List Target → ℕ → M Db (List Message)
forward_message id forwarder targets now =
    throw_if (ltb max_forward_targets (length targets)) (app_error conflict_app_error conflict)
    >> find_for id forwarder
    >>= λ original. forward_all original forwarder now targets
