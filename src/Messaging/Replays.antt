-- ===== src/Messaging/Replays.antt =====
-- A client id that a message of a conversation has.
use mathlib.Core.Option
use convene.Common.{
  ℕ, ◌+◌, ◌≡◌, refl, ap, ◌∙◌, inl, inr, ◌⊎◌, Bool, true, Option, none, some, List, [], ◌∷◌, arith,
  insert, update_where, find_first, Option-cases,
}
use convene.Errors.{ok, err, AppError, ◌>>◌, bind-cases, Result-cases}
use convene.Connections.{Conversation}
use convene.Messaging.{Message, Db}
use convene.Messaging.Repository.{
  SendMessageInput, SendMessageResult, is_client_message, new_message, repo_send_message,
}
use convene.Messaging.Service.{send_message, send_checks, publish_new}
use convene.Messaging.Keeping.{IsStable}
use convene.Messaging.Checks.{post_message-cases, send_checks-same}
use convene.Messaging.History.{MessagingCall, run, run-Kept}

-- The id of the first row that a query finds.
abbrev found_id : (Message → Bool) → List Message → Option ℕ
found_id q ms = Option.map (λ m. m.id) (find_first q ms)

unfoldable IsKnown : ℕ → ℕ → ℕ → List Conversation → List Message → Type 0
IsKnown conversation client id cs ms = found_id (is_client_message conversation client) ms ≡ some id

found_id-insert :
    (q : Message → Bool) (r : Message) (ms : List Message) (id : ℕ)
    → found_id q ms ≡ some id
    → found_id q (insert r ms) ≡ some id
found_id-insert q r [] id h = cc
found_id-insert q r (m ∷ ms) id h = ground (arith, h, found_id-insert q r ms id)

found_id-insert_new :
    (q : Message → Bool) (r : Message) (ms : List Message)
    → find_first q ms ≡ none
    → q r ≡ true
    → found_id q (insert r ms) ≡ some r.id
found_id-insert_new q r [] n t = rw t refl
found_id-insert_new q r (m ∷ ms) n t = ground (arith, found_id-insert_new q r ms)

found_id-update :
    (q p : Message → Bool) (f : Message → Message) (ms : List Message)
    → ((m : Message) → (f m).id ≡ m.id)
    → ((m : Message) → q (f m) ≡ q m)
    → found_id q (update_where p f ms) ≡ found_id q ms
found_id-update q p f [] h k = refl
found_id-update q p f (m ∷ ms) h k = ground (arith, h m, k m, found_id-update q p f ms h k)

IsKnown-IsStable : (conversation client id : ℕ) → IsStable (IsKnown conversation client id)
unfolding IsKnown
IsKnown-IsStable conversation client id = record {
  on_post = λ c m now db e n h.
      found_id-insert (is_client_message conversation client) m db.messages id h;
  on_update = λ p f cs ms own_id own own_client number h.
      found_id-update (is_client_message conversation client) p f ms own_id
        (λ m. rw (own m, own_client m) refl)
      ∙ h;
}

repo_send_message-IsKnown :
    (input : SendMessageInput) (id now : ℕ) (db t : Db) (r : SendMessageResult)
    → repo_send_message input id now db ≡ (ok r, t)
    → IsKnown input.conversation_id input.client_msg_id r.message.id t.conversations t.messages
unfolding IsKnown repo_send_message
repo_send_message-IsKnown input id now db t r e =
    let q = is_client_message input.conversation_id input.client_msg_id in
    elim (Option-cases (find_first q db.messages)) [
      | inr (m, f) ↦ ground (arith, e, f)
      | inl n ↦ elim (post_message-cases input.conversation_id (new_message input id now) now db) [
        | inl k ↦ ground (arith, e, n, k)
        | inr (c, f, k) ↦
            let m = new_message input id now (c.message_seq + 1) in
            let there = found_id-insert_new q m db.messages n (ground arith) in
            ground (arith, e, n, k, there)
      ]
    ]

checked-IsKnown :
    (input : SendMessageInput) (is_rejected : Bool) (id now : ℕ) (db t : Db) (r : SendMessageResult)
    → (send_checks input is_rejected >> repo_send_message input id now) db ≡ (ok r, t)
    → IsKnown input.conversation_id input.client_msg_id r.message.id t.conversations t.messages
checked-IsKnown input is_rejected id now db t r =
    bind-cases
      (λ out.
        out ≡ (ok r, t)
        → IsKnown input.conversation_id input.client_msg_id r.message.id t.conversations t.messages)
      (send_checks input is_rejected) (λ _. repo_send_message input id now) db (λ e u p q. cc)
      (λ a u p. repo_send_message-IsKnown input id now u t r)

publish_new-IsKnown :
    (conversation client : ℕ) (a r : SendMessageResult) (u t : Db)
    → publish_new a u ≡ (ok r, t)
    → IsKnown conversation client a.message.id u.conversations u.messages
    → IsKnown conversation client r.message.id t.conversations t.messages
publish_new-IsKnown conversation client a r u t e k = ground (arith, e, k)

send_message-IsKnown :
    (input : SendMessageInput) (is_rejected : Bool) (id now : ℕ) (db t : Db) (r : SendMessageResult)
    → send_message input is_rejected id now db ≡ (ok r, t)
    → IsKnown input.conversation_id input.client_msg_id r.message.id t.conversations t.messages
unfolding send_message
send_message-IsKnown input is_rejected id now db t r =
    bind-cases
      (λ out.
        out ≡ (ok r, t)
        → IsKnown input.conversation_id input.client_msg_id r.message.id t.conversations t.messages)
      (send_checks input is_rejected >> repo_send_message input id now) publish_new db
      (λ e u p q. cc)
      (λ a u p q.
        publish_new-IsKnown input.conversation_id input.client_msg_id a r u t q
          (checked-IsKnown input is_rejected id now db u a p))

send_message-known :
    (input : SendMessageInput) (is_rejected : Bool) (id now known : ℕ) (db : Db)
    → IsKnown input.conversation_id input.client_msg_id known db.conversations db.messages
    → let out = send_message input is_rejected id now db in
      (out.1 ≡ db)
      × (((e : AppError) × (out.0 ≡ err e))
          ⊎ ((m : Message) × (out.0 ≡ ok (record { message = m; is_replay = true }))
              × (m.id ≡ known)))
unfolding IsKnown send_message repo_send_message
send_message-known input is_rejected id now known db k =
    let same = send_checks-same input is_rejected db in
    elim (Result-cases (send_checks input is_rejected db)) [
      | inl (e, p) ↦
          let stop : send_checks input is_rejected db ≡ (err e, db) = ground (arith, p, same) in
          let out : send_message input is_rejected id now db ≡ (err e, db) = ground (arith, stop) in
          rw out (refl, inl (e, refl))
      | inr (u, p) ↦
          let pass : send_checks input is_rejected db ≡ (ok tt, db) = ground (arith, p, same) in
          elim (Option-cases (
            find_first (is_client_message input.conversation_id input.client_msg_id) db.messages)) [
              | inl n ↦ absurd (ground (arith, n, k))
              | inr (m, f) ↦
                  let out : send_message input is_rejected id now db
                      ≡ (ok (record { message = m; is_replay = true }), db) =
                    ground (arith, pass, f) in
                  rw out (refl, inr (m, refl, ground (arith, f, k)))
            ]
    ]

-- After a send that succeeded and any further calls, a send to the same conversation with the same client
-- id writes nothing, and is either refused or answered by a message with the id of the first,
-- as a replay.
pub send_message-again :
    (first again : SendMessageInput) (is_rejected rejected_again : Bool) (id now new_id later : ℕ)
    (cs : List MessagingCall) (db : Db) {r : SendMessageResult}
    → (send_message first is_rejected id now db).0 ≡ ok r
    → again.conversation_id ≡ first.conversation_id
    → again.client_msg_id ≡ first.client_msg_id
    → let s = run cs (send_message first is_rejected id now db).1 in
      let out = send_message again rejected_again new_id later s in
      (out.1 ≡ s)
      × (((e : AppError) × (out.0 ≡ err e))
          ⊎ ((m : Message) × (out.0 ≡ ok (record { message = m; is_replay = true }))
              × (m.id ≡ r.message.id)))
send_message-again first again is_rejected rejected_again id now new_id later cs db {r} done own
      client =
    send_message-known again rejected_again new_id later r.message.id _ (
      run-Kept (IsKnown again.conversation_id again.client_msg_id r.message.id)
        (IsKnown-IsStable again.conversation_id again.client_msg_id r.message.id) cs _
        (rw (own, client)
          (send_message-IsKnown first is_rejected id now db _ r
            (ap (λ x. (x, (send_message first is_rejected id now db).1)) done))))
