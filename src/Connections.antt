-- ===== src/Connections.antt =====
-- apps/api/src/modules/connections: requests to connect, and what answers them. This file has the
-- tables of packages/db/src/schema/connections.ts and messaging.ts, as far as they are used.
pub mod Requests
pub mod Service
pub mod Pairs
pub mod History
pub mod Blocking
pub mod Answers
pub mod Cooldown
pub mod Inbound
pub mod Mutual
pub mod Quota
pub mod Sending
mod Examples
use convene.Common.{ℕ, Bool, true, false, ◌&&◌, Option, List, [], ◌∷◌, is_none, ◌==◌}

pub data RequestStatus : Type 0 where
  pending accepted rejected cancelled expired : RequestStatus

pub record Request : Type 0 where
  pub id : ℕ
  pub sender_id : ℕ
  pub recipient_id : ℕ
  pub intent_id : Option ℕ
  pub note : Option (List ℕ)
  pub match_score : Option ℕ
  pub status : RequestStatus
  pub is_queued : Bool
  pub responded_at : Option ℕ
  pub expires_at : ℕ
  pub created_at : ℕ

pub record Connection : Type 0 where
  pub id : ℕ
  pub user_a_id : ℕ
  pub user_b_id : ℕ
  pub requester_id : ℕ
  pub intent_id : Option ℕ
  pub match_score : Option ℕ
  pub connected_at : ℕ
  pub removed_at : Option ℕ

pub data ConversationState : Type 0 where
  active frozen archived : ConversationState

pub record Conversation : Type 0 where
  pub id : ℕ
  pub connection_id : ℕ
  pub state : ConversationState
  pub message_seq : ℕ
  pub last_message_at : Option ℕ

pub record Participant : Type 0 where
  pub conversation_id : ℕ
  pub user_id : ℕ

pub record Message : Type 0 where
  pub id : ℕ
  pub conversation_id : ℕ
  pub sender_id : ℕ
  pub sequence : ℕ
  pub body : List ℕ
  pub created_at : ℕ

pub record Block : Type 0 where
  pub blocker_id : ℕ
  pub blocked_id : ℕ

-- `notified` holds the users told of an accepted request.
pub record Db : Type 0 where
  pub requests : List Request
  pub connections : List Connection
  pub conversations : List Conversation
  pub participants : List Participant
  pub messages : List Message
  pub blocks : List Block
  pub notified : List ℕ

unfoldable pub is_pending : RequestStatus → Bool
is_pending pending = true
is_pending accepted = false
is_pending rejected = false
is_pending cancelled = false
is_pending expired = false

abbrev pub is_id : ℕ → Request → Bool
is_id id r = r.id == id

-- `WHERE id = … AND status = 'pending'`.
abbrev pub is_pending_id : ℕ → Request → Bool
is_pending_id id r = is_id id r && is_pending r.status

abbrev pub is_pending_between : ℕ → ℕ → Request → Bool
is_pending_between sender recipient r =
    r.sender_id == sender && (r.recipient_id == recipient && is_pending r.status)

-- `WHERE user_a_id = … AND user_b_id = … AND removed_at IS NULL`.
abbrev pub is_active_pair : ℕ → ℕ → Connection → Bool
is_active_pair a b c = c.user_a_id == a && (c.user_b_id == b && is_none c.removed_at)
