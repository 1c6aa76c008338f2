-- ===== src/Messaging.antt =====
-- apps/api/src/modules/messaging: conversations and their messages. This file has the tables of
-- packages/db/src/schema/messaging.ts as far as the module uses them; the conversations themselves are
-- those of Connections, which creates them.
pub mod Repository
pub mod Changes
pub mod Service
pub mod Sequences
pub mod Reading
pub mod Checks
pub mod Keeping
pub mod Replays
pub mod History
mod Examples
use convene.Common.{ℕ, Bool, ◌&&◌, Option, List, ◌==◌}
use convene.Connections.{Conversation}

-- The jsonb of a message, with the two entries that this module writes.
pub record Metadata : Type 0 where
  pub forwarded_from_message_id : Option ℕ
  pub link_preview : Option (List ℕ)

pub data ModerationState : Type 0 where
  pending clean flagged retracted : ModerationState

pub record Message : Type 0 where
  pub id : ℕ
  pub conversation_id : ℕ
  pub sender_id : ℕ
  pub client_msg_id : ℕ
  pub sequence : ℕ
  pub body : Option (List ℕ)
  pub reply_to_id : Option ℕ
  pub attachments : List ℕ
  pub metadata : Metadata
  pub edited_at : Option ℕ
  pub edit_count : ℕ
  pub deleted_at : Option ℕ
  pub moderation_state : ModerationState
  pub created_at : ℕ

pub record ConversationParticipant : Type 0 where
  pub conversation_id : ℕ
  pub user_id : ℕ
  pub unread_count : ℕ
  pub last_read_seq : ℕ

pub record MessageReaction : Type 0 where
  pub message_id : ℕ
  pub created_at_ref : ℕ
  pub user_id : ℕ
  pub emoji : List ℕ

pub record MessageHide : Type 0 where
  pub message_id : ℕ
  pub user_id : ℕ

pub record MessageEdit : Type 0 where
  pub message_id : ℕ
  pub version : ℕ
  pub body : List ℕ
  pub edited_at : ℕ

-- What the module publishes on the channel of a conversation.
pub data Event : Type 0 where
  message_sent : (conversation_id : ℕ) (message : Message) → Event
  message_updated : (conversation_id : ℕ) (message : Message) → Event
  message_deleted : (conversation_id message_id : ℕ) → Event
  reaction_set : (conversation_id message_id user_id : ℕ) (emoji : List ℕ) → Event
  reaction_removed : (conversation_id message_id user_id : ℕ) → Event

pub record Db : Type 0 where
  pub conversations : List Conversation
  pub participants : List ConversationParticipant
  pub messages : List Message
  pub reactions : List MessageReaction
  pub hides : List MessageHide
  pub edits : List MessageEdit
  pub events : List Event

abbrev pub is_conversation : ℕ → Conversation → Bool
is_conversation id c = c.id == id

abbrev pub is_in : ℕ → Message → Bool
is_in conversation m = m.conversation_id == conversation

abbrev pub is_message : ℕ → Message → Bool
is_message id m = m.id == id

abbrev pub is_participant : ℕ → ℕ → ConversationParticipant → Bool
is_participant conversation user p = p.conversation_id == conversation && p.user_id == user
