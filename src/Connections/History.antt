-- ===== src/Connections/History.antt =====
-- Any sequence of requests, answers, expiries and blocks (connections.service.ts,
-- connections.repository.ts, blocks.service.ts).
use convene.Common.{
  ℕ, ◌≤◌, ◌≡◌, refl, sym, inl, inr, subst, none, some, List, [], ◌∷◌, arith, Option-cases, All,
  count, find_first,
}
use convene.Errors.{Result-cases}
use convene.Connections.{
  rejected, cancelled, Db, is_pending, is_id, is_active_pair, is_pending_between,
}
use convene.Connections.Requests.{
  CreateConnectionRequestInput, Draw, create_request, respond, withdraw_request, reject_request,
  expire_pending_requests, accept_request, create_block, delete_block, freeze_conversation_between,
}
use convene.Connections.Service.{accept, reject, withdraw, notify, block, unblock}
use convene.Connections.Pairs.{
  Paired, IsProper, IsOrdered, respond-Paired, expire-Paired, create_request-Paired,
  accept_request-Paired,
}

pub data Call : Type 0 where
  creates : ℕ → CreateConnectionRequestInput → ℕ → Call
  accepts : Draw → ℕ → ℕ → ℕ → Call
  rejects : ℕ → ℕ → ℕ → Call
  withdraws : ℕ → ℕ → ℕ → Call
  expires : ℕ → Call
  blocks_user : ℕ → ℕ → Call
  unblocks_user : ℕ → ℕ → Call

unfoldable pub step : Db → Call → Db
step db (creates id input now) = (create_request id input now db).1
step db (accepts draw recipient id now) = (accept draw recipient id now db).1
step db (rejects recipient id now) = (reject recipient id now db).1
step db (withdraws sender id now) = (withdraw sender id now db).1
step db (expires now) = expire_pending_requests now db
step db (blocks_user blocker blocked) = (block blocker blocked db).1
step db (unblocks_user blocker blocked) = (unblock blocker blocked db).1

unfoldable pub run : List Call → Db → Db
run [] db = db
run (c ∷ cs) db = run cs (step db c)

notify-Paired : (user : ℕ) (db : Db) → Paired db → Paired (notify user db)
unfolding Paired
notify-Paired user db h = h

-- A block and its end write neither requests nor connections.
pub block-tables :
    (blocker blocked : ℕ) (db : Db)
    → ((block blocker blocked db).1.requests ≡ db.requests)
      × ((block blocker blocked db).1.connections ≡ db.connections)
unfolding block create_block freeze_conversation_between
block-tables blocker blocked db = (ground arith, ground arith)

pub unblock-tables :
    (blocker blocked : ℕ) (db : Db)
    → ((unblock blocker blocked db).1.requests ≡ db.requests)
      × ((unblock blocker blocked db).1.connections ≡ db.connections)
unfolding unblock delete_block
unblock-tables blocker blocked db = (refl, refl)

same_tables-Paired :
    (db after : Db)
    → after.requests ≡ db.requests
    → after.connections ≡ db.connections
    → Paired db
    → Paired after
unfolding Paired
same_tables-Paired db after rs cs (proper, one, ordered, pair) = (
  subst (All IsProper) (sym rs) proper,
  (λ s r. subst (λ x. count (is_pending_between s r) x ≤ 1) (sym rs) (one s r)),
  subst (All IsOrdered) (sym cs) ordered,
  (λ a b. subst (λ x. count (is_active_pair a b) x ≤ 1) (sym cs) (pair a b)),
)

accept-Paired :
    (draw : Draw) (recipient id now : ℕ) (db : Db)
    → Paired db
    → Paired (accept draw recipient id now db).1
unfolding accept
accept-Paired draw recipient id now db h =
    let mid = accept_request draw id now db in
    let kept = accept_request-Paired draw id now db h in
    elim (Option-cases (find_first (is_id id) db.requests)) [
      | inl e ↦ ground arith
      | inr (r, e) ↦
          let after = notify-Paired r.sender_id mid.1 kept in
          elim (Result-cases mid) [
            | inl (x, q) ↦ ground arith
            | inr (none, q) ↦ ground arith
            | inr (some c, q) ↦ ground arith
          ]
    ]

reject-Paired : (recipient id now : ℕ) (db : Db) → Paired db → Paired (reject recipient id now db).1
unfolding reject reject_request is_pending
reject-Paired recipient id now db h =
    let mid = respond rejected id now db in
    let kept = respond-Paired rejected id now db refl h in
    elim (Result-cases mid) [
      | inl (x, q) ↦ ground arith
      | inr (none, q) ↦ ground arith
      | inr (some c, q) ↦ ground arith
    ]

withdraw-Paired : (sender id now : ℕ) (db : Db) → Paired db → Paired (withdraw sender id now db).1
unfolding withdraw withdraw_request is_pending
withdraw-Paired sender id now db h =
    let mid = respond cancelled id now db in
    let kept = respond-Paired cancelled id now db refl h in
    elim (Result-cases mid) [
      | inl (x, q) ↦ ground arith
      | inr (none, q) ↦ ground arith
      | inr (some c, q) ↦ ground arith
    ]

pub step-Paired : (c : Call) (db : Db) → Paired db → Paired (step db c)
unfolding step
step-Paired (creates id input now) db h = create_request-Paired id input now db h
step-Paired (accepts draw recipient id now) db h = accept-Paired draw recipient id now db h
step-Paired (rejects recipient id now) db h = reject-Paired recipient id now db h
step-Paired (withdraws sender id now) db h = withdraw-Paired sender id now db h
step-Paired (expires now) db h = expire-Paired now db h
step-Paired (blocks_user blocker blocked) db h =
    let same = block-tables blocker blocked db in
    same_tables-Paired db (block blocker blocked db).1 same.0 same.1 h
step-Paired (unblocks_user blocker blocked) db h =
    let same = unblock-tables blocker blocked db in
    same_tables-Paired db (unblock blocker blocked db).1 same.0 same.1 h

-- Over any sequence of requests, answers, expiries and blocks, from tables that agree, no request is
-- to oneself, at most one is pending from one user to another, and a pair, held in order, has at
-- most one active connection.
pub run-Paired : (cs : List Call) (db : Db) → Paired db → Paired (run cs db)
unfolding run
run-Paired [] db h = h
run-Paired (c ∷ cs) db h = run-Paired cs (step db c) (step-Paired c db h)
