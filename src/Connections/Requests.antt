-- ===== src/Connections/Requests.antt =====
-- apps/api/src/modules/connections/repositories/connections.repository.ts: the writes that create
-- and answer requests, each in its own transaction where the source has one, and blocks. Inserts
-- meet the unique indexes uq_pending_request and uq_connection_pair, and chk_no_self_request.
use convene.Common.{
  ℕ, ◌+◌, ◌*◌, Bool, ◌&&◌, ◌||◌, Option, none, some, List, [], ◌∷◌, ◌++◌, ◌==◌, ltb, find_first,
  update_where, insert, delete_where, any, if◌then◌else◌, is_some, min, max,
}
use convene.Errors.{M, ok, err, app_error, ErrorClass, ErrorCode}
use convene.Connections.{
  RequestStatus, pending, accepted, rejected, cancelled, expired, Request, Connection,
  ConversationState, Conversation, Message, Db, is_pending, is_pending_id, is_pending_between,
  is_active_pair,
}

abbrev pub request_ttl_ms : ℕ
request_ttl_ms = 14 * 24 * 60 * 60 * 1000

pub record CreateConnectionRequestInput : Type 0 where
  pub sender_id : ℕ
  pub recipient_id : ℕ
  pub intent_id : Option ℕ
  pub note : Option (List ℕ)
  pub match_score : Option ℕ
  pub is_queued : Bool

-- The ids that the inserts draw.
pub record Draw : Type 0 where
  pub request : ℕ
  pub connection : ℕ
  pub conversation : ℕ
  pub message : ℕ

abbrev pub answered : RequestStatus → ℕ → Request → Request
answered status now r = record r { status = status; responded_at = some now }

abbrev pub new_request : ℕ → CreateConnectionRequestInput → ℕ → Request
new_request id input now = record {
  id = id;
  sender_id = input.sender_id;
  recipient_id = input.recipient_id;
  intent_id = input.intent_id;
  note = input.note;
  match_score = input.match_score;
  status = pending;
  is_queued = input.is_queued;
  responded_at = none;
  expires_at = now + request_ttl_ms;
  created_at = now;
}

abbrev pub is_refused : CreateConnectionRequestInput → Db → Bool
is_refused input db =
    input.sender_id == input.recipient_id
    || any (is_pending_between input.sender_id input.recipient_id) db.requests

-- The violation of an index or of a check surfaces as an internal error.
unfoldable pub create_request : ℕ → CreateConnectionRequestInput → ℕ → M Db Request
create_request id input now db =
    if is_refused input db
    then (err (app_error ErrorClass.internal_app_error ErrorCode.internal_error), db)
    else (
      ok (new_request id input now),
      record db { requests = insert (new_request id input now) db.requests },
    )

-- `UPDATE … SET status, responded_at WHERE id = … AND status = 'pending' RETURNING`.
unfoldable pub respond : RequestStatus → ℕ → ℕ → M Db (Option Request)
respond status id now db = elim (find_first (is_pending_id id) db.requests) [
  | none ↦ (ok none, db)
  | some r ↦ (
    ok (some (answered status now r)),
    record db { requests = update_where (is_pending_id id) (answered status now) db.requests },
  )
]

unfoldable pub withdraw_request : ℕ → ℕ → M Db (Option Request)
unfolding respond
withdraw_request id now = respond cancelled id now

unfoldable pub reject_request : ℕ → ℕ → M Db (Option Request)
unfolding respond
reject_request id now = respond rejected id now

abbrev pub is_overdue : ℕ → Request → Bool
is_overdue now r = is_pending r.status && ltb r.expires_at now

unfoldable pub expire_pending_requests : ℕ → Db → Db
expire_pending_requests now db = record db {
  requests = update_where (is_overdue now) (answered expired now) db.requests;
}

-- The pair of a request in the order of chk_pair_order.
abbrev pub lower : Request → ℕ
lower r = min r.sender_id r.recipient_id

abbrev pub upper : Request → ℕ
upper r = max r.sender_id r.recipient_id

abbrev pub new_connection : ℕ → Request → ℕ → Connection
new_connection id r now = record {
  id = id;
  user_a_id = lower r;
  user_b_id = upper r;
  requester_id = r.sender_id;
  intent_id = r.intent_id;
  match_score = r.match_score;
  connected_at = now;
  removed_at = none;
}

-- `INSERT … ON CONFLICT DO NOTHING`, and the row that stands in the way.
abbrev pub resolve_connection : ℕ → Request → ℕ → List Connection → Connection × List Connection
resolve_connection id r now rows = elim (find_first (is_active_pair (lower r) (upper r)) rows) [
  | some c ↦ (c, rows)
  | none ↦ (new_connection id r now, insert (new_connection id r now) rows)
]

-- A note that is null or empty carries no message.
abbrev pub text_of : Option (List ℕ) → Option (List ℕ)
text_of none = none
text_of (some []) = none
text_of (some (c ∷ cs)) = some (c ∷ cs)

abbrev pub new_conversation : Draw → Connection → Option (List ℕ) → ℕ → Conversation
new_conversation draw connection text now = record {
  id = draw.conversation;
  connection_id = connection.id;
  state = ConversationState.active;
  message_seq = if is_some text then 1 else 0;
  last_message_at = if is_some text then some now else none;
}

abbrev pub first_message : Draw → ℕ → Option (List ℕ) → ℕ → List Message
first_message draw sender none now = []
first_message draw sender (some text) now =
    record {
      id = draw.message;
      conversation_id = draw.conversation;
      sender_id = sender;
      sequence = 1;
      body = text;
      created_at = now;
    }
    ∷ []

-- What both transactions do with an accepted request: the connection, its conversation with both
-- participants, and the note as the first message.
abbrev pub connect : Draw → Request → ℕ → Db → Db
connect draw r now db =
    let (connection, rows) = resolve_connection draw.connection r now db.connections in
    let text = text_of r.note in
    record db {
      connections = rows;
      conversations = insert (new_conversation draw connection text now) db.conversations;
      participants =
          db.participants
          ++ (record { conversation_id = draw.conversation; user_id = r.sender_id }
              ∷ record { conversation_id = draw.conversation; user_id = r.recipient_id }
              ∷ []);
      messages = db.messages ++ first_message draw r.sender_id text now;
    }

unfoldable pub accept_request : Draw → ℕ → ℕ → M Db (Option Connection)
accept_request draw id now db = elim (find_first (is_pending_id id) db.requests) [
  | none ↦ (ok none, db)
  | some r ↦ (
    ok (some (resolve_connection draw.connection r now db.connections).0),
    connect draw r now (record db {
      requests = update_where (is_pending_id id) (answered accepted now) db.requests;
    }),
  )
]

unfoldable pub is_blocked_either_way : ℕ → ℕ → Db → Bool
is_blocked_either_way a b db =
    any (λ k. (k.blocker_id == a && k.blocked_id == b) || (k.blocker_id == b && k.blocked_id == a))
      db.blocks

unfoldable pub create_block : ℕ → ℕ → Db → Db
create_block blocker blocked db =
    if any (λ k. k.blocker_id == blocker && k.blocked_id == blocked) db.blocks
    then db
    else record db {
      blocks = insert (record { blocker_id = blocker; blocked_id = blocked }) db.blocks;
    }

unfoldable pub delete_block : ℕ → ℕ → Db → Db
delete_block blocker blocked db = record db {
  blocks = delete_where (λ k. k.blocker_id == blocker && k.blocked_id == blocked) db.blocks;
}

-- `findActiveConnectionBetween`.
unfoldable pub find_active_connection_between : ℕ → ℕ → Db → Option Connection
find_active_connection_between a b db =
    find_first (is_active_pair (min a b) (max a b)) db.connections

-- `freezeConversationBetween`.
unfoldable pub freeze_conversation_between : ℕ → ℕ → Db → Db
freeze_conversation_between a b db =
    elim (find_first (is_active_pair (min a b) (max a b)) db.connections) [
      | none ↦ db
      | some c ↦ record db {
        conversations =
            update_where (λ k. k.connection_id == c.id)
              (λ k. record k { state = ConversationState.frozen }) db.conversations;
      }
    ]
