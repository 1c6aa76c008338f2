-- ===== src/Connections/Mutual.antt =====
-- connections.repository.ts, acceptMutualRequests: a request that meets a pending one of the other way
-- is accepted at once, together with it, in one transaction.
use convene.Common.{
  ℕ, false, Option, none, some, List, [], ◌∷◌, ◌++◌, ◌==◌, find_first, update_where, insert,
  if◌then◌else◌,
}
use convene.Errors.{M, ok, err, app_error, ErrorClass, ErrorCode}
use convene.Connections.{accepted, Request, Connection, Db, is_pending_id, is_active_pair}
use convene.Connections.Requests.{
  CreateConnectionRequestInput, Draw, answered, new_request, lower, upper, text_of, first_message,
  new_conversation,
}

abbrev pub accepted_request : ℕ → CreateConnectionRequestInput → ℕ → Request
accepted_request id input now = record (new_request id input now) {
  status = accepted;
  is_queued = false;
  responded_at = some now;
}

-- The pair of the new row; the asker, the intent and the score of the existing one.
abbrev pub mutual_connection : ℕ → Request → Request → ℕ → Connection
mutual_connection id existing row now = record {
  id = id;
  user_a_id = lower row;
  user_b_id = upper row;
  requester_id = existing.sender_id;
  intent_id = existing.intent_id;
  match_score = existing.match_score;
  connected_at = now;
  removed_at = none;
}

abbrev pub resolve_mutual :
    ℕ → Request → Request → ℕ → List Connection → Connection × List Connection
resolve_mutual id existing row now rows =
    elim (find_first (is_active_pair (lower row) (upper row)) rows) [
      | some c ↦ (c, rows)
      | none ↦ (
        mutual_connection id existing row now,
        insert (mutual_connection id existing row now) rows,
      )
    ]

-- `existing.note ?? row.note`, and whose it is: a note that is empty counts as a note for the first and
-- as none for the second, and makes no message.
abbrev pub mutual_text : Request → Request → Option (List ℕ)
mutual_text existing row = elim existing.note [
  | none ↦ text_of row.note
  | some text ↦ text_of (some text)
]

abbrev pub mutual_author : Request → Request → ℕ
mutual_author existing row = elim (text_of existing.note) [
  | none ↦ row.sender_id
  | some text ↦ existing.sender_id
]

pub record MutualAccept : Type 0 where
  pub connection : Connection
  pub new_request : Request
  pub existing_request : Request

abbrev pub connect_mutual : Draw → Request → Request → ℕ → Db → Db
connect_mutual draw existing row now db =
    let (connection, rows) = resolve_mutual draw.connection existing row now db.connections in
    let text = mutual_text existing row in
    record db {
      connections = rows;
      conversations = insert (new_conversation draw connection text now) db.conversations;
      participants =
          db.participants
          ++ (record { conversation_id = draw.conversation; user_id = row.sender_id }
              ∷ record { conversation_id = draw.conversation; user_id = row.recipient_id }
              ∷ []);
      messages = db.messages ++ first_message draw (mutual_author existing row) text now;
    }

-- A throw takes the transaction back: chk_no_self_request is the check that an insert of an accepted
-- row can violate.
unfoldable pub accept_mutual_requests :
    Draw → ℕ → CreateConnectionRequestInput → ℕ → M Db (Option MutualAccept)
accept_mutual_requests draw existing_id input now db =
    elim (find_first (is_pending_id existing_id) db.requests) [
      | none ↦ (ok none, db)
      | some r ↦
          if input.sender_id == input.recipient_id
          then (err (app_error ErrorClass.internal_app_error ErrorCode.internal_error), db)
          else (let existing = answered accepted now r in
              let row = accepted_request draw.request input now in
              (
                ok (
                    some (record {
                      connection =
                          (resolve_mutual draw.connection existing row now db.connections).0;
                      new_request = row;
                      existing_request = existing;
                    })),
                connect_mutual draw existing row now (record db {
                  requests = insert row (
                      update_where (is_pending_id existing_id) (answered accepted now) db.requests);
                }),
              ))
    ]
