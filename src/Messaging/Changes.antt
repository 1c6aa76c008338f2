-- ===== src/Messaging/Changes.antt =====
-- Changes of messages that are there, in
-- apps/api/src/modules/messaging/repositories/messages.repository.ts.
use convene.Common.{
  ℕ, ◌+◌, ◌*◌, Bool, ◌&&◌, Option, none, some, List, [], ◌==◌, leb, ltb, if◌then◌else◌, find_first,
  update_where, insert, delete_where, any, is_none,
}
use convene.Messaging.{retracted, Message, MessageReaction, MessageEdit, Db, is_message}

abbrev pub edit_window_ms : ℕ
edit_window_ms = 15 * 60000

abbrev pub max_edits : ℕ
max_edits = 3

abbrev pub delete_for_everyone_window_ms : ℕ
delete_for_everyone_window_ms = 1 * 60 * 60000

abbrev pub text_of : Option (List ℕ) → List ℕ
text_of none = []
text_of (some body) = body

abbrev pub is_editable : ℕ → Message → Bool
is_editable now m =
    is_none m.deleted_at && (leb now (m.created_at + edit_window_ms) && ltb m.edit_count max_edits)

abbrev pub edited : Message → List ℕ → ℕ → Message → Message
edited current body now m = record m {
  body = some body;
  edited_at = some now;
  edit_count = current.edit_count + 1;
}

abbrev pub edit_of : Message → ℕ → MessageEdit
edit_of current now = record {
  message_id = current.id;
  version = current.edit_count + 1;
  body = text_of current.body;
  edited_at = now;
}

abbrev pub edit_current : Option Message → List ℕ → ℕ → Db → Option Message × Db
edit_current none body now db = (none, db)
edit_current (some current) body now db =
    if is_editable now current
    then (
      some (edited current body now current),
      record db {
        edits = insert (edit_of current now) db.edits;
        messages = update_where (is_message current.id) (edited current body now) db.messages;
      },
    )
    else (none, db)

unfoldable pub repo_edit_message : ℕ → ℕ → List ℕ → ℕ → Db → Option Message × Db
repo_edit_message id sender body now db =
    edit_current (find_first (λ m. is_message id m && m.sender_id == sender) db.messages) body now
      db

abbrev pub hide_for_user : ℕ → ℕ → Db → Db
hide_for_user message user db =
    if any (λ h. h.message_id == message && h.user_id == user) db.hides
    then db
    else record db { hides = insert (record { message_id = message; user_id = user }) db.hides }

-- `SET body = NULL, deleted_at = now, deleted_scope = 'everyone'`.
abbrev pub tombstone : ℕ → Message → Message
tombstone now m = record m { body = none; deleted_at = some now }

abbrev pub is_deletable : ℕ → ℕ → ℕ → Message → Bool
is_deletable id sender now m =
    is_message id m
    && (m.sender_id == sender
        && (is_none m.deleted_at && leb now (m.created_at + delete_for_everyone_window_ms)))

-- Whether a row was written, and the tables.
unfoldable pub delete_for_everyone : ℕ → ℕ → ℕ → Db → Bool × Db
delete_for_everyone id sender now db = (
  any (is_deletable id sender now) db.messages,
  record db { messages = update_where (is_deletable id sender now) (tombstone now) db.messages },
)

abbrev pub is_reaction : ℕ → ℕ → MessageReaction → Bool
is_reaction message user r = r.message_id == message && r.user_id == user

unfoldable pub repo_set_reaction : ℕ → ℕ → ℕ → List ℕ → Db → Db
repo_set_reaction message created user emoji db =
    if any (is_reaction message user) db.reactions
    then record db {
      reactions =
          update_where (is_reaction message user) (λ r. record r { emoji = emoji }) db.reactions;
    }
    else record db {
      reactions =
          insert
            (record {
              message_id = message;
              created_at_ref = created;
              user_id = user;
              emoji = emoji;
            })
            db.reactions;
    }

unfoldable pub repo_remove_reaction : ℕ → ℕ → Db → Db
repo_remove_reaction message user db = record db {
  reactions = delete_where (is_reaction message user) db.reactions;
}

abbrev pub with_link_preview : List ℕ → Message → Message
with_link_preview preview m = record m {
  metadata = record {
    forwarded_from_message_id = m.metadata.forwarded_from_message_id;
    link_preview = some preview;
  };
}

unfoldable pub attach_link_preview : ℕ → List ℕ → Db → Db
attach_link_preview id preview db = record db {
  messages = update_where (is_message id) (with_link_preview preview) db.messages;
}

abbrev pub is_retractable : ℕ → Message → Bool
is_retractable id m = is_message id m && is_none m.deleted_at

abbrev pub retraction : ℕ → Message → Message
retraction now m = record m { body = none; deleted_at = some now; moderation_state = retracted }

unfoldable pub retract_message : ℕ → ℕ → Db → Db
retract_message id now db = record db {
  messages = update_where (is_retractable id) (retraction now) db.messages;
}
