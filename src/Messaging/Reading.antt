-- ===== src/Messaging/Reading.antt =====
-- Reading up to a sequence number: markRead of
-- apps/api/src/modules/messaging/services/conversations.service.ts and
-- repositories/conversations.repository.ts beside it. The pushes that it cancels are left out.
use convene.Common.{ℕ, max, Option, none, some, ◌&&◌, ltb, count, find_first, update_where}
use convene.Errors.{
  M, ◌>>=◌, ◌>>◌, pure, or_throw, gets, modify, app_error, conversation_not_found,
  not_found_app_error,
}
use convene.Messaging.{ConversationParticipant, Db, is_in, is_participant}

pub record ReadResult : Type 0 where
  pub unread_count : ℕ
  pub last_read_seq : ℕ

unfoldable pub load_participant : ℕ → ℕ → Db → Option ConversationParticipant
load_participant conversation user db =
    find_first (is_participant conversation user) db.participants

abbrev pub last_read : Option ConversationParticipant → ℕ
last_read none = 0
last_read (some p) = p.last_read_seq

abbrev pub unread : Option ConversationParticipant → ℕ
unread none = 0
unread (some p) = p.unread_count

abbrev pub unread_after : ℕ → ℕ → Db → ℕ
unread_after conversation sequence db =
    count (λ m. is_in conversation m && ltb sequence m.sequence) db.messages

abbrev pub read_to : ℕ → ℕ → Db → ConversationParticipant → ConversationParticipant
read_to conversation sequence db p = record p {
  last_read_seq = max p.last_read_seq sequence;
  unread_count = unread_after conversation (max p.last_read_seq sequence) db;
}

unfoldable pub repo_mark_read : ℕ → ℕ → ℕ → Db → Db
repo_mark_read conversation user sequence db = record db {
  participants =
      update_where (is_participant conversation user) (read_to conversation sequence db)
        db.participants;
}

unfoldable pub mark_read : ℕ → ℕ → ℕ → M Db ReadResult
mark_read conversation user sequence = gets (load_participant conversation user) >>= λ found.
    or_throw found (app_error not_found_app_error conversation_not_found) >>= λ before.
    modify (repo_mark_read conversation user sequence)
    >> gets (load_participant conversation user)
    >>= λ p. pure (record { unread_count = unread p; last_read_seq = last_read p })
