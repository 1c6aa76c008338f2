-- ===== src/Messaging/History.antt =====
-- Sequences of calls of the module.
use convene.Common.{ℕ, Bool, List, [], ◌∷◌}
use convene.Connections.{Conversation}
use convene.Messaging.{Message, Db}
use convene.Messaging.Repository.{SendMessageInput}
use convene.Messaging.Changes.{retract_message, attach_link_preview}
use convene.Messaging.Reading.{mark_read}
use convene.Messaging.Service.{
  DeleteScope, Target, send_message, edit_message, delete_message, set_reaction, remove_reaction,
  forward_message,
}
use convene.Messaging.Keeping.{
  IsStable, mark_read-Kept, send_message-Kept, edit_message-Kept, delete_message-Kept,
  set_reaction-Kept, remove_reaction-Kept, forward_message-Kept, retract_message-Kept,
  attach_link_preview-Kept,
}

pub data MessagingCall : Type 0 where
  send_call : (input : SendMessageInput) (is_rejected : Bool) (id now : ℕ) → MessagingCall
  edit_call : (id user : ℕ) (body : List ℕ) (now : ℕ) → MessagingCall
  delete_call : (id user : ℕ) (scope : DeleteScope) (now : ℕ) → MessagingCall
  react_call : (id user : ℕ) (emoji : List ℕ) → MessagingCall
  unreact_call : (id user : ℕ) → MessagingCall
  forward_call : (id forwarder : ℕ) (targets : List Target) (now : ℕ) → MessagingCall
  retract_call : (id now : ℕ) → MessagingCall
  read_call : (conversation user sequence : ℕ) → MessagingCall
  preview_call : (id : ℕ) (preview : List ℕ) → MessagingCall

unfoldable pub after : MessagingCall → Db → Db
after (send_call input is_rejected id now) db = (send_message input is_rejected id now db).1
after (edit_call id user body now) db = (edit_message id user body now db).1
after (delete_call id user scope now) db = (delete_message id user scope now db).1
after (react_call id user emoji) db = (set_reaction id user emoji db).1
after (unreact_call id user) db = (remove_reaction id user db).1
after (forward_call id forwarder targets now) db = (forward_message id forwarder targets now db).1
after (retract_call id now) db = retract_message id now db
after (read_call conversation user sequence) db = (mark_read conversation user sequence db).1
after (preview_call id preview) db = attach_link_preview id preview db

unfoldable pub run : List MessagingCall → Db → Db
run [] db = db
run (c ∷ cs) db = run cs (after c db)

module _ (Holds : List Conversation → List Message → Type 0) (stable : IsStable Holds) where
  abbrev P : Db → Type 0
  P db = Holds db.conversations db.messages

  after-Kept : (c : MessagingCall) (db : Db) → P db → P (after c db)
  unfolding after
  after-Kept (send_call input is_rejected id now) db h =
      send_message-Kept Holds stable input is_rejected id now db h
  after-Kept (edit_call id user body now) db h =
      edit_message-Kept Holds stable id user body now db h
  after-Kept (delete_call id user scope now) db h =
      delete_message-Kept Holds stable id user scope now db h
  after-Kept (react_call id user emoji) db h = set_reaction-Kept Holds stable id user emoji db h
  after-Kept (unreact_call id user) db h = remove_reaction-Kept Holds stable id user db h
  after-Kept (forward_call id forwarder targets now) db h =
      forward_message-Kept Holds stable id forwarder targets now db h
  after-Kept (retract_call id now) db h = retract_message-Kept Holds stable id now db h
  after-Kept (read_call conversation user sequence) db h =
      mark_read-Kept Holds stable conversation user sequence db h
  after-Kept (preview_call id preview) db h = attach_link_preview-Kept Holds stable id preview db h

  pub run-Kept : (cs : List MessagingCall) (db : Db) → P db → P (run cs db)
  unfolding run
  run-Kept [] db h = h
  run-Kept (c ∷ cs) db h = run-Kept cs (after c db) (after-Kept c db h)
