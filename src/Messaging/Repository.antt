-- ===== src/Messaging/Repository.antt =====
-- The sending half of apps/api/src/modules/messaging/repositories/messages.repository.ts. What the database draws for an inserted row and its clock are
-- arguments.
use convene.Common.{
  ℕ, zero, suc, ◌+◌, Bool, true, false, ◌&&◌, Option, none, some, List, [], ◌∷◌, map, ◌==◌, leb,
  if◌then◌else◌, select, find_first, update_where, insert,
}
use convene.Errors.{
  M, ◌>>=◌, ◌>>◌, pure, or_throw, gets, modify, transaction, app_error, internal_error,
  internal_app_error,
}
use convene.Connections.{Conversation}
use convene.Messaging.{
  pending, Message, ConversationParticipant, Db, is_conversation, is_in, is_message,
}

pub record SendMessageInput : Type 0 where
  pub conversation_id : ℕ
  pub sender_id : ℕ
  pub client_msg_id : ℕ
  pub body : List ℕ
  pub reply_to_id : Option ℕ
  pub attachments : List ℕ

pub record SendMessageResult : Type 0 where
  pub message : Message
  pub is_replay : Bool

abbrev pub find_conversation_by_id : ℕ → Db → Option Conversation
find_conversation_by_id id db = find_first (is_conversation id) db.conversations

abbrev pub load_participant_ids : ℕ → Db → List ℕ
load_participant_ids conversation db =
    map (λ p. p.user_id) (select (λ p. p.conversation_id == conversation) db.participants)

abbrev pub find_message_by_id : ℕ → Db → Option Message
find_message_by_id id db = find_first (is_message id) db.messages

abbrev pub is_client_message : ℕ → ℕ → Message → Bool
is_client_message conversation client m = is_in conversation m && m.client_msg_id == client

-- The sender has read the message; the others have one more unread.
abbrev pub counted : Message → ConversationParticipant → ConversationParticipant
counted m p =
    if p.conversation_id == m.conversation_id
    then (if p.user_id == m.sender_id
        then record p { last_read_seq = m.sequence }
        else record p { unread_count = p.unread_count + 1 })
    else p

abbrev pub next_seq : ℕ → Conversation → Conversation
next_seq now c = record c { message_seq = c.message_seq + 1; last_message_at = some now }

-- The writes of a new message.
abbrev pub posted : Message → ℕ → Db → Db
posted m now db = record db {
  conversations = update_where (is_conversation m.conversation_id) (next_seq now) db.conversations;
  messages = insert m db.messages;
  participants = map (counted m) db.participants;
}

-- A message with the next sequence number of its conversation.
unfoldable pub post_message : ℕ → (ℕ → Message) → ℕ → M Db Message
post_message conversation make now = transaction (
    gets (find_conversation_by_id conversation) >>= λ found.
    or_throw found (app_error internal_app_error internal_error) >>= λ c.
    modify (posted (make (c.message_seq + 1)) now) >> pure (make (c.message_seq + 1)))

abbrev pub new_message : SendMessageInput → ℕ → ℕ → ℕ → Message
new_message input id now sequence = record {
  id = id;
  conversation_id = input.conversation_id;
  sender_id = input.sender_id;
  client_msg_id = input.client_msg_id;
  sequence = sequence;
  body = some input.body;
  reply_to_id = input.reply_to_id;
  attachments = input.attachments;
  metadata = record { forwarded_from_message_id = none; link_preview = none };
  edited_at = none;
  edit_count = 0;
  deleted_at = none;
  moderation_state = pending;
  created_at = now;
}

abbrev pub send_new : SendMessageInput → ℕ → ℕ → Option Message → M Db SendMessageResult
send_new input id now (some existing) = pure (record { message = existing; is_replay = true })
send_new input id now none =
    post_message input.conversation_id (new_message input id now) now >>= λ m.
    pure (record { message = m; is_replay = false })

unfoldable pub repo_send_message : SendMessageInput → ℕ → ℕ → M Db SendMessageResult
repo_send_message input id now =
    gets
      (λ db. find_first (is_client_message input.conversation_id input.client_msg_id) db.messages)
    >>= send_new input id now

-- `ORDER BY sequence DESC`.
abbrev pub place : Message → List Message → List Message
place m [] = m ∷ []
place m (x ∷ xs) =
    let rest = place m xs in if leb x.sequence m.sequence then m ∷ x ∷ xs else x ∷ rest

abbrev pub newest_first : List Message → List Message
newest_first [] = []
newest_first (m ∷ ms) = place m (newest_first ms)

-- How many of the first `window` messages a sender sent before any other.
abbrev pub leading : ℕ → ℕ → List Message → ℕ
leading sender window [] = 0
leading sender zero (m ∷ ms) = 0
leading sender (suc window) (m ∷ ms) =
    let rest = leading sender window ms in if m.sender_id == sender then 1 + rest else 0

unfoldable pub trailing_consecutive_sender_count : ℕ → ℕ → ℕ → Db → ℕ
trailing_consecutive_sender_count conversation sender window db =
    leading sender window (newest_first (select (is_in conversation) db.messages))

abbrev pub forwarded_copy : Message → ℕ → ℕ → ℕ → ℕ → ℕ → ℕ → Message
forwarded_copy original forwarder target id client now sequence = record {
  id = id;
  conversation_id = target;
  sender_id = forwarder;
  client_msg_id = client;
  sequence = sequence;
  body = original.body;
  reply_to_id = none;
  attachments = [];
  metadata = record { forwarded_from_message_id = some original.id; link_preview = none };
  edited_at = none;
  edit_count = 0;
  deleted_at = none;
  moderation_state = pending;
  created_at = now;
}
