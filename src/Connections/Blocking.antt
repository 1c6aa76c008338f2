-- ===== src/Connections/Blocking.antt =====
-- What a block and its end do to a connected pair (blocks.service.ts, connections.repository.ts).
use convene.Common.{
  ℕ, ◌≡◌, ◌≢◌, refl, sym, ap, ◌∙◌, inl, inr, subst, Bool, true, false, ◌&&◌, ◌||◌, some, List, [],
  ◌∷◌, arith, ◌==◌, ==_iff, ==_refl, Bool-cases, All, any, any-append, find_first, min, max,
  update_where, delete_where,
}
use convene.Connections.{Connection, Conversation, ConversationState, Block, Db, is_active_pair}
use convene.Connections.Requests.{
  is_blocked_either_way, create_block, delete_block, find_active_connection_between,
  freeze_conversation_between,
}
use convene.Connections.Service.{block, unblock}
use convene.Connections.History.{block-tables}

-- The row by which one user blocks another.
abbrev pub blocks : ℕ → ℕ → Block → Bool
blocks blocker blocked k = k.blocker_id == blocker && k.blocked_id == blocked

any-either :
    (p q : Block → Bool) (rows : List Block) → any p rows ≡ true → any (λ k. p k || q k) rows ≡ true
any-either p q [] h = cc
any-either p q (x ∷ xs) h = ground (arith, any-either p q xs)

any-delete :
    (p q : Block → Bool) (rows : List Block)
    → ((k : Block) → p k ≡ true → q k ≡ false)
    → any (λ k. p k || q k) (delete_where p rows) ≡ any q rows
any-delete p q [] h = refl
any-delete p q (x ∷ xs) h =
    let rest = any-delete p q xs h in
    elim (Bool-cases (p x)) [ inl t ↦ let other = h x t in ground arith | inr f ↦ ground arith ]

frozen_all :
    (id : ℕ) (rows : List Conversation)
    → All
        (λ k. k.connection_id ≡ id → k.state ≡ ConversationState.frozen)
        (update_where
          (λ k. k.connection_id == id)
          (λ k. record k { state = ConversationState.frozen })
          rows)
frozen_all id [] = tt
frozen_all id (k ∷ ks) = (
  elim (Bool-cases (k.connection_id == id)) [
    | inl t ↦ ground arith
    | inr f ↦ ground (arith, ==_refl id)
  ],
  frozen_all id ks,
)

different : (a b : ℕ) → a ≢ b → (b == a) ≡ false
different a b ne = elim (Bool-cases (b == a)) [
  | inl t ↦ absurd (ne (sym ((==_iff b a).0 t)))
  | inr f ↦ f
]

block-blocks :
    (blocker blocked : ℕ) (db : Db)
    → blocker ≢ blocked
    → any (blocks blocker blocked) (block blocker blocked db).1.blocks ≡ true
unfolding block create_block freeze_conversation_between
block-blocks blocker blocked db ne =
    let other = different blocker blocked ne in
    let new : Block = record { blocker_id = blocker; blocked_id = blocked } in
    elim (Bool-cases (any (blocks blocker blocked) db.blocks)) [
      | inl t ↦ ground arith
      | inr f ↦ ground (
        arith,
        any-append (blocks blocker blocked) db.blocks (new ∷ []),
        ==_refl blocker,
        ==_refl blocked,
      )
    ]

-- The rows of the other way are not written.
block-reverse :
    (blocker blocked : ℕ) (db : Db)
    → blocker ≢ blocked
    → any (blocks blocked blocker) (block blocker blocked db).1.blocks
      ≡ any (blocks blocked blocker) db.blocks
unfolding block create_block freeze_conversation_between
block-reverse blocker blocked db ne =
    let other = different blocker blocked ne in
    let new : Block = record { blocker_id = blocker; blocked_id = blocked } in
    let more = any-append (blocks blocked blocker) db.blocks (new ∷ []) in
    elim (Bool-cases (any (blocks blocker blocked) db.blocks)) [
      | inl t ↦ ground arith
      | inr f ↦ ground arith
    ]

block-conversations :
    (blocker blocked : ℕ) (db : Db) (c : Connection)
    → blocker ≢ blocked
    → find_active_connection_between blocker blocked db ≡ some c
    → (block blocker blocked db).1.conversations
      ≡ update_where
          (λ k. k.connection_id == c.id)
          (λ k. record k { state = ConversationState.frozen })
          db.conversations
unfolding block create_block freeze_conversation_between find_active_connection_between
block-conversations blocker blocked db c ne e =
    let other = different blocker blocked ne in
    elim (Bool-cases (any (blocks blocker blocked) db.blocks)) [
      | inl t ↦ ground arith
      | inr f ↦ ground arith
    ]

-- A user who blocks one of their connections is blocked from them and they from the user, and every
-- conversation of the connection is frozen. Once the user lifts the block, the pair is blocked only
-- if the other had blocked the user before; the connection is as it was, and its conversations
-- stay frozen.
pub unblock-block :
    (blocker blocked : ℕ) (db : Db) (c : Connection)
    → blocker ≢ blocked
    → find_active_connection_between blocker blocked db ≡ some c
    → let held = (block blocker blocked db).1 in
      let freed = (unblock blocker blocked held).1 in
      (is_blocked_either_way blocker blocked held ≡ true)
      × (is_blocked_either_way blocker blocked freed
          ≡ any (λ k. k.blocker_id == blocked && k.blocked_id == blocker) db.blocks)
      × (find_active_connection_between blocker blocked freed ≡ some c)
      × All (λ k. k.connection_id ≡ c.id → k.state ≡ ConversationState.frozen) held.conversations
      × All (λ k. k.connection_id ≡ c.id → k.state ≡ ConversationState.frozen) freed.conversations
unfolding is_blocked_either_way find_active_connection_between unblock delete_block
unblock-block blocker blocked db c ne e =
    let held = (block blocker blocked db).1 in
    let frozen =
      subst (All (λ k. k.connection_id ≡ c.id → k.state ≡ ConversationState.frozen))
        (sym (block-conversations blocker blocked db c ne e)) (frozen_all c.id db.conversations) in
    let other = different blocker blocked ne in
    (
      any-either (blocks blocker blocked) (blocks blocked blocker) held.blocks
          (block-blocks blocker blocked db ne),
      any-delete (blocks blocker blocked) (blocks blocked blocker) held.blocks (λ k t. ground arith)
          ∙ block-reverse blocker blocked db ne,
      ap (find_first (is_active_pair (min blocker blocked) (max blocker blocked)))
            (block-tables blocker blocked db).1
          ∙ e,
      frozen,
      frozen,
    )
