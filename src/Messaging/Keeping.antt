-- ===== src/Messaging/Keeping.antt =====
-- What every call of the module keeps: a rule for properties of the conversations and the messages.
use convene.Common.{
  ℕ, ◌+◌, ◌≡◌, refl, sym, ap, ◌∙◌, inl, inr, Bool, some, List, [], ◌∷◌, ◌==◌, arith, subst,
  update_where, find_first, ◌&&◌, Option-cases, Bool-cases, length, ltb,
}
use convene.Errors.{
  app_error, ◌>>=◌, ◌>>◌, pure, throw_if, Keeps, >>=-Keeps, throw_if-Keeps, pure-Keeps, conflict,
  conflict_app_error,
}
use convene.Connections.{Conversation}
use convene.Messaging.{Message, message_sent, Db, is_message}
use convene.Messaging.Repository.{
  SendMessageInput, SendMessageResult, posted, find_conversation_by_id, new_message, post_message,
  repo_send_message, forwarded_copy,
}
use convene.Messaging.Changes.{
  repo_edit_message, is_editable, edited, delete_for_everyone, is_deletable, tombstone,
  repo_set_reaction, repo_remove_reaction, attach_link_preview, with_link_preview, is_retractable,
  retraction, retract_message,
}
use convene.Messaging.Reading.{mark_read, repo_mark_read}
use convene.Messaging.Checks.{
  post_message-cases, assert_active_participant-same, send_checks-same, find_for-same,
}
use convene.Messaging.Service.{
  publish, send_checks, assert_active_participant, publish_new, send_message, edit_message,
  DeleteScope, me, everyone, delete_in, find_for, delete_message, set_reaction, remove_reaction,
  max_forward_targets, Target, forward_to, forward_all, forward_message,
}

-- A property that a new message with the next number keeps, and an update of messages that leaves their
-- ids and numbers as they are.
pub record IsStable (Holds : List Conversation → List Message → Type 0) : Type 0 where
  pub on_post :
      (c : Conversation) (m : Message) (now : ℕ) (db : Db)
      → find_conversation_by_id m.conversation_id db ≡ some c
      → m.sequence ≡ c.message_seq + 1
      → Holds db.conversations db.messages
      → Holds (posted m now db).conversations (posted m now db).messages
  pub on_update :
      (p : Message → Bool) (f : Message → Message) (cs : List Conversation) (ms : List Message)
      → ((m : Message) → (f m).id ≡ m.id)
      → ((m : Message) → (f m).conversation_id ≡ m.conversation_id)
      → ((m : Message) → (f m).client_msg_id ≡ m.client_msg_id)
      → ((m : Message) → (f m).sequence ≡ m.sequence)
      → Holds cs ms
      → Holds cs (update_where p f ms)

module _ (Holds : List Conversation → List Message → Type 0) (stable : IsStable Holds) where
  abbrev P : Db → Type 0
  P db = Holds db.conversations db.messages

  post_message-Kept :
      (target : ℕ) (make : ℕ → Message) (now : ℕ)
      → ((n : ℕ) → (make n).conversation_id ≡ target)
      → ((n : ℕ) → (make n).sequence ≡ n)
      → Keeps P (post_message target make now)
  post_message-Kept target make now own number db h = elim (post_message-cases target make now db) [
    | inl e ↦ rw e h
    | inr (c, e, k) ↦ rw k (
        stable.on_post c (make (c.message_seq + 1)) now db
          (ap (λ t. find_conversation_by_id t db) (own (c.message_seq + 1)) ∙ e)
          (number (c.message_seq + 1)) h)
  ]

  repo_send_message-Kept :
      (input : SendMessageInput) (id now : ℕ) → Keeps P (repo_send_message input id now)
  unfolding repo_send_message
  repo_send_message-Kept input id now db h =
      let kept =
        post_message-Kept input.conversation_id (new_message input id now) now (λ n. refl)
          (λ n. refl) db h in
      ground (arith, h, kept)

  publish_new-Kept : (r : SendMessageResult) → Keeps P (publish_new r)
  publish_new-Kept r db h = ground (arith, h)

  pub send_message-Kept :
      (input : SendMessageInput) (is_rejected : Bool) (id now : ℕ)
      → Keeps P (send_message input is_rejected id now)
  unfolding send_message
  send_message-Kept input is_rejected id now =
      >>=-Keeps P (send_checks input is_rejected >> repo_send_message input id now) publish_new
        (>>=-Keeps P (send_checks input is_rejected) (λ _. repo_send_message input id now)
          (λ db h. subst P (sym (send_checks-same input is_rejected db)) h)
          (λ _. repo_send_message-Kept input id now))
        publish_new-Kept

  repo_edit_message-Kept :
      (id sender : ℕ) (body : List ℕ) (now : ℕ) (db : Db)
      → P db
      → P (repo_edit_message id sender body now db).1
  unfolding repo_edit_message
  repo_edit_message-Kept id sender body now db h =
      elim (Option-cases (find_first (λ m. is_message id m && m.sender_id == sender) db.messages)) [
        | inl n ↦ rw (n, repo_edit_message) h
        | inr (m, e) ↦ elim (Bool-cases (is_editable now m)) [
          | inl t ↦
              rw (e, repo_edit_message, t)
                (stable.on_update (is_message m.id) (edited m body now) db.conversations db.messages
                  (λ x. refl) (λ x. refl) (λ x. refl) (λ x. refl) h)
          | inr f ↦ rw (e, repo_edit_message, f) h
        ]
      ]

  pub edit_message-Kept :
      (id user : ℕ) (body : List ℕ) (now : ℕ) → Keeps P (edit_message id user body now)
  unfolding edit_message
  edit_message-Kept id user body now db h =
      ground (arith, h, repo_edit_message-Kept id user body now db h)

  delete_in-Kept :
      (scope : DeleteScope) (existing : Message) (user now : ℕ)
      → Keeps P (delete_in scope existing user now)
  unfolding delete_for_everyone
  delete_in-Kept me existing user now db h = ground (arith, h)
  delete_in-Kept everyone existing user now db h =
      let kept =
        stable.on_update (is_deletable existing.id user now) (tombstone now) db.conversations
          db.messages (λ x. refl) (λ x. refl) (λ x. refl) (λ x. refl) h in
      ground (arith, h, kept)

  pub delete_message-Kept :
      (id user : ℕ) (scope : DeleteScope) (now : ℕ) → Keeps P (delete_message id user scope now)
  unfolding delete_message delete_for_everyone
  delete_message-Kept id user scope now =
      >>=-Keeps P (find_for id user) (λ existing. delete_in scope existing user now)
        (λ db h. subst P (sym (find_for-same id user db)) h)
        (λ existing. delete_in-Kept scope existing user now)

  pub set_reaction-Kept : (id user : ℕ) (emoji : List ℕ) → Keeps P (set_reaction id user emoji)
  unfolding set_reaction repo_set_reaction
  set_reaction-Kept id user emoji db h = ground (arith, h, find_for-same id user db)

  pub remove_reaction-Kept : (id user : ℕ) → Keeps P (remove_reaction id user)
  unfolding remove_reaction repo_remove_reaction
  remove_reaction-Kept id user db h = ground (arith, h, find_for-same id user db)

  forward_to-Kept :
      (original : Message) (forwarder now : ℕ) (t : Target)
      → Keeps P (forward_to original forwarder now t)
  forward_to-Kept original forwarder now t =
      let make = forwarded_copy original forwarder t.conversation_id t.id t.client_msg_id now in
      let checks = assert_active_participant t.conversation_id forwarder in
      let post = post_message t.conversation_id make now in
      >>=-Keeps P (checks >> post)
        (λ copy. publish (message_sent t.conversation_id copy) >> pure copy)
        (>>=-Keeps P checks (λ _. post)
          (λ db h. subst P (sym (assert_active_participant-same t.conversation_id forwarder db)) h)
          (λ _. post_message-Kept t.conversation_id make now (λ n. refl) (λ n. refl)))
        (λ copy db h. h)

  forward_all-Kept :
      (original : Message) (forwarder now : ℕ) (ts : List Target)
      → Keeps P (forward_all original forwarder now ts)
  forward_all-Kept original forwarder now [] = pure-Keeps P {A = List Message} []
  forward_all-Kept original forwarder now (t ∷ ts) =
      let rest = forward_all original forwarder now ts in
      >>=-Keeps P (forward_to original forwarder now t)
        (λ copy. rest >>= λ copies. pure (copy ∷ copies)) (forward_to-Kept original forwarder now t)
        (λ copy.
          >>=-Keeps P rest (λ copies. pure (copy ∷ copies))
            (forward_all-Kept original forwarder now ts) (λ copies. pure-Keeps P (copy ∷ copies)))

  pub forward_message-Kept :
      (id forwarder : ℕ) (targets : List Target) (now : ℕ)
      → Keeps P (forward_message id forwarder targets now)
  unfolding forward_message
  forward_message-Kept id forwarder targets now =
      let bound =
        throw_if (ltb max_forward_targets (length targets))
          (app_error conflict_app_error conflict) in
      >>=-Keeps P (bound >> find_for id forwarder)
        (λ original. forward_all original forwarder now targets)
        (>>=-Keeps P bound (λ _. find_for id forwarder) (throw_if-Keeps P _ _)
          (λ _ db h. subst P (sym (find_for-same id forwarder db)) h))
        (λ original. forward_all-Kept original forwarder now targets)

  pub retract_message-Kept : (id now : ℕ) (db : Db) → P db → P (retract_message id now db)
  unfolding retract_message
  retract_message-Kept id now db h =
      stable.on_update (is_retractable id) (retraction now) db.conversations db.messages (λ x. refl)
        (λ x. refl) (λ x. refl) (λ x. refl) h

  pub attach_link_preview-Kept :
      (id : ℕ) (preview : List ℕ) (db : Db) → P db → P (attach_link_preview id preview db)
  unfolding attach_link_preview
  attach_link_preview-Kept id preview db h =
      stable.on_update (is_message id) (with_link_preview preview) db.conversations db.messages
        (λ x. refl) (λ x. refl) (λ x. refl) (λ x. refl) h

  pub mark_read-Kept : (c user sequence : ℕ) → Keeps P (mark_read c user sequence)
  unfolding mark_read repo_mark_read
  mark_read-Kept c user sequence db h = ground (arith, h)
