-- ===== src/Messaging/Sequences.antt =====
-- The numbers of the messages of one conversation.
use convene.Common.{
  ℕ, zero, suc, ◌+◌, ◌≡◌, refl, sym, ap, ◌∙◌, inl, inr, Bool, true, false, some, List, [], ◌∷◌,
  ◌++◌, ◌==◌, arith, All, All-imp, All-update_to, insert, update_where, find_first-All,
  find_first-holds, Bool-cases, length, length-append, if◌then◌else◌,
}
use convene.Connections.{Conversation}
use convene.Messaging.{Message, Db, is_conversation, is_in}
use convene.Messaging.Keeping.{IsStable}
use convene.Messaging.History.{MessagingCall, run, run-Kept}
use convene.Messaging.Repository.{find_conversation_by_id, posted, next_seq}

abbrev pub sequences : ℕ → List Message → List ℕ
sequences conversation [] = []
sequences conversation (m ∷ ms) =
    let rest = sequences conversation ms in if is_in conversation m then m.sequence ∷ rest else rest

-- 1, 2, …, n.
abbrev pub up_to : ℕ → List ℕ
up_to zero = []
up_to (suc n) = up_to n ++ (suc n ∷ [])

up_to-next : (n : ℕ) → up_to (n + 1) ≡ up_to n ++ ((n + 1) ∷ [])
up_to-next n = let e : n + 1 ≡ suc n = omega arith in rw e refl

length-up_to : (n : ℕ) → length (up_to n) ≡ n
length-up_to zero = refl
length-up_to (suc n) = omega (arith, length-append (up_to n) (suc n ∷ []), length-up_to n)

up_to-eq : (n m : ℕ) → up_to n ≡ up_to m → n ≡ m
up_to-eq n m e = omega (arith, length-up_to n, length-up_to m, ap length e)

-- The messages of a conversation, in the order of their insertion, have the numbers from 1 to its
-- `message_seq`, without a gap or a repetition.
unfoldable pub IsNumbered : ℕ → List Conversation → List Message → Type 0
IsNumbered conversation cs ms =
    All (λ c. c.id ≡ conversation → sequences conversation ms ≡ up_to c.message_seq) cs

abbrev pub IsSequenced : ℕ → Db → Type 0
IsSequenced conversation db = IsNumbered conversation db.conversations db.messages

sequences-insert_in :
    (conversation : ℕ) (m : Message) (ms : List Message)
    → is_in conversation m ≡ true
    → sequences conversation (insert m ms) ≡ sequences conversation ms ++ (m.sequence ∷ [])
sequences-insert_in conversation m [] h = rw h refl
sequences-insert_in conversation m (x ∷ xs) h =
    ground (arith, sequences-insert_in conversation m xs h)

sequences-insert_out :
    (conversation : ℕ) (m : Message) (ms : List Message)
    → is_in conversation m ≡ false
    → sequences conversation (insert m ms) ≡ sequences conversation ms
sequences-insert_out conversation m [] h = rw h refl
sequences-insert_out conversation m (x ∷ xs) h =
    ground (arith, sequences-insert_out conversation m xs h)

sequences-update :
    (conversation : ℕ) (p : Message → Bool) (f : Message → Message) (ms : List Message)
    → ((m : Message) → (f m).conversation_id ≡ m.conversation_id)
    → ((m : Message) → (f m).sequence ≡ m.sequence)
    → sequences conversation (update_where p f ms) ≡ sequences conversation ms
sequences-update conversation p f [] h k = refl
sequences-update conversation p f (m ∷ ms) h k =
    ground (arith, h m, k m, sequences-update conversation p f ms h k)

posted-IsSequenced :
    (conversation : ℕ) (c : Conversation) (m : Message) (now : ℕ) (db : Db)
    → find_conversation_by_id m.conversation_id db ≡ some c
    → m.sequence ≡ c.message_seq + 1
    → IsSequenced conversation db
    → IsSequenced conversation (posted m now db)
unfolding IsNumbered
posted-IsSequenced conversation c m now db e n before =
    let own : (c.id == m.conversation_id) ≡ true =
      find_first-holds (is_conversation m.conversation_id) db.conversations {a = c} e in
    let numbered =
      find_first-All
        (λ c. c.id ≡ conversation → sequences conversation db.messages ≡ up_to c.message_seq)
        (is_conversation m.conversation_id) db.conversations {a = c} before e in
    elim (Bool-cases (is_in conversation m)) [
      | inl t ↦
          let more = sequences-insert_in conversation m db.messages t in
          All-update_to _ _ (is_conversation m.conversation_id) (next_seq now) db.conversations
            (λ x h p q.
              let same =
                up_to-eq x.message_seq c.message_seq (sym (h q) ∙ numbered (ground arith)) in
              more
              ∙ ap (λ ns. ns ++ (m.sequence ∷ [])) (h q)
              ∙ ap (λ n. up_to x.message_seq ++ (n ∷ [])) (omega (arith, n, same))
              ∙ sym (up_to-next x.message_seq))
            (λ x h p q. absurd (ground arith)) before
      | inr f ↦
          let same = sequences-insert_out conversation m db.messages f in
          All-update_to _ _ (is_conversation m.conversation_id) (next_seq now) db.conversations
            (λ x h p q. absurd (ground arith)) (λ x h p q. same ∙ h q) before
    ]

IsNumbered-IsStable : (conversation : ℕ) → IsStable (IsNumbered conversation)
unfolding IsNumbered
IsNumbered-IsStable conversation = record {
  on_post = posted-IsSequenced conversation;
  on_update = λ p f cs ms id own client number h.
      All-imp _ _ cs (λ c k q. sequences-update conversation p f ms own number ∙ k q) h;
}

-- If the messages of a conversation, in the order of their insertion, have the numbers from 1 to its
-- `message_seq` without a gap or a repetition, they still do after any sequence of sends, edits,
-- deletions, reactions, forwards, retractions, readings and previews.
pub run-IsSequenced :
    (conversation : ℕ) (cs : List MessagingCall) (db : Db)
    → IsSequenced conversation db
    → IsSequenced conversation (run cs db)
run-IsSequenced conversation = run-Kept (IsNumbered conversation) (IsNumbered-IsStable conversation)
