-- ===== src/Messaging/Examples.antt =====
-- A conversation of two users.
use convene.Common.{ℕ, ◌≡◌, refl, ◌⊎◌, true, false, none, List, [], ◌∷◌, length}
use convene.Errors.{ok, err, AppError, app_error, too_many_requests_app_error, awaiting_reply}
use convene.Connections.{Conversation, active}
use convene.Messaging.{Message, ConversationParticipant, Db}
use convene.Messaging.Repository.{
  SendMessageInput, SendMessageResult, post_message, repo_send_message,
  trailing_consecutive_sender_count, new_message,
}
use convene.Messaging.Changes.{repo_edit_message, delete_for_everyone}
use convene.Messaging.Reading.{mark_read, load_participant, repo_mark_read}
use convene.Messaging.Service.{
  everyone, assert_participant, assert_active_participant, assert_not_awaiting_reply, send_checks,
  send_message, edit_message, delete_message, forward_message,
}
use convene.Messaging.History.{
  MessagingCall, read_call, send_call, edit_call, delete_call, forward_call, after, run,
}
use convene.Messaging.Sequences.{IsSequenced, IsNumbered, sequences, run-IsSequenced}
use convene.Messaging.Replays.{send_message-again}

abbrev talk : Conversation
talk = record { id = 1; connection_id = 9; state = active; message_seq = 0; last_message_at = none }

abbrev member : ℕ → ConversationParticipant
member user = record { conversation_id = 1; user_id = user; unread_count = 0; last_read_seq = 0 }

abbrev empty : Db
empty = record {
  conversations = talk ∷ [];
  participants = member 7 ∷ member 8 ∷ [];
  messages = [];
  reactions = [];
  hides = [];
  edits = [];
  events = [];
}

-- A message by user 7 with a client id.
abbrev text : ℕ → SendMessageInput
text client = record {
  conversation_id = 1;
  sender_id = 7;
  client_msg_id = client;
  body = 104 ∷ 105 ∷ [];
  reply_to_id = none;
  attachments = [];
}

abbrev calls : List MessagingCall
calls =
    send_call (text 1) false 101 1000
    ∷ send_call (text 1) false 102 2000
    ∷ send_call (text 2) false 103 3000
    ∷ read_call 1 8 2
    ∷ edit_call 103 7 (104 ∷ []) 4000
    ∷ delete_call 101 7 everyone 5000
    ∷ forward_call 103 7 (record { conversation_id = 1; id = 104; client_msg_id = 50 } ∷ []) 6000
    ∷ []

calls_numbers : sequences 1 (run calls empty).messages ≡ 1 ∷ 2 ∷ 3 ∷ []
unfolding run after send_message send_checks assert_active_participant assert_participant
    assert_not_awaiting_reply trailing_consecutive_sender_count repo_send_message post_message
    edit_message repo_edit_message delete_message delete_for_everyone forward_message mark_read
    load_participant repo_mark_read
calls_numbers = refl

run-IsSequenced_example : IsSequenced 1 (run calls empty)
unfolding IsNumbered
run-IsSequenced_example = run-IsSequenced 1 calls empty ((λ e. refl), tt)

abbrev first_result : SendMessageResult
first_result = record { message = new_message (text 1) 101 1000 1; is_replay = false }

send_message-again_example :
    let s = run calls (send_message (text 1) false 101 1000 empty).1 in
    let out = send_message (text 1) false 110 9000 s in
    (out.1 ≡ s)
    × (((e : AppError) × (out.0 ≡ err e))
        ⊎ ((m : Message) × (out.0 ≡ ok (record { message = m; is_replay = true })) × (m.id ≡ 101)))
unfolding send_message send_checks assert_active_participant assert_participant
    assert_not_awaiting_reply trailing_consecutive_sender_count repo_send_message post_message
send_message-again_example =
    send_message-again (text 1) (text 1) false false 101 1000 110 9000 calls empty
      {r = first_result} refl refl refl

-- Three messages in a row, and the third again.
abbrev three : Db
three =
    run
      (send_call (text 1) false 101 1000
        ∷ send_call (text 2) false 102 2000
        ∷ send_call (text 3) false 103 3000
        ∷ [])
      empty

third_again :
    (send_message (text 3) false 104 4000 three).0
    ≡ err (app_error too_many_requests_app_error awaiting_reply)
unfolding run after send_message send_checks assert_active_participant assert_participant
    assert_not_awaiting_reply trailing_consecutive_sender_count repo_send_message post_message
third_again = refl

forward_past_limit :
    length
      (forward_message 103 7
        (record { conversation_id = 1; id = 104; client_msg_id = 50 } ∷ [])
        5000
        three).1.messages
    ≡ 4
unfolding run after send_message send_checks assert_active_participant assert_participant
    assert_not_awaiting_reply trailing_consecutive_sender_count repo_send_message post_message
    forward_message
forward_past_limit = refl
