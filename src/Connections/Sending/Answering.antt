-- ===== src/Connections/Sending/Answering.antt =====
-- What anyone but a sender does to the tables: the requests are as they were, or some that were pending
-- have got an answer (connections.service.ts, blocks.service.ts, connections.repository.ts).
use convene.Common.{
  ℕ, ◌≤◌, ◌<◌, ◌≡◌, refl, sym, subst, ◌⊎◌, inl, inr, Bool, true, false, none, some, List, arith,
  ◌==◌, All-imp, find_first, update_where, Bool-cases, Option-cases,
}
use convene.Errors.{Result-cases}
use convene.Connections.{
  RequestStatus, accepted, rejected, cancelled, expired, Request, Db, is_pending, is_pending_id,
  is_id,
}
use convene.Connections.Requests.{
  Draw, answered, respond, withdraw_request, reject_request, expire_pending_requests, is_overdue,
  accept_request, is_blocked_either_way,
}
use convene.Connections.Service.{accept, reject, withdraw}
use convene.Connections.Cooldown.{responded}
use convene.Connections.Pairs.{Paired}
use convene.Connections.History
use convene.Connections.History.{block-tables, unblock-tables}
use convene.Connections.Sending.Retries.{IsFair, AnsweredBy, answered-IsFair, answered-AnsweredBy}

-- What the tables agree on at a time.
pub record Inv (last : ℕ) (db : Db) : Type 0 where
  pub paired : Paired db
  pub past : AnsweredBy last db.requests
  pub fair : (s r : ℕ) → IsFair s r db.requests

-- The requests are as they were, or an answer was written to some that were pending.
abbrev pub IsAnswered : ℕ → List Request → List Request → Type 0
IsAnswered now rows rows' =
    (rows' ≡ rows)
    ⊎ ((p : Request → Bool) × (status : RequestStatus) × ((x : Request)
          → p x ≡ true
          → is_pending x.status ≡ true)
        × (is_pending status ≡ false)
        × (rows' ≡ update_where p (answered status now) rows))

pub answered-Inv :
    (last now : ℕ) (db db' : Db)
    → last < now
    → IsAnswered now db.requests db'.requests
    → Paired db'
    → Paired db
    → Inv last db
    → Inv now db'
unfolding Paired
answered-Inv last now db db' lt (inl same) paired' paired v = record {
  paired = paired';
  past =
      subst (AnsweredBy now) (sym same)
        (All-imp (λ x. responded x ≤ last) _ db.requests (λ x h. omega arith) v.past);
  fair = λ s r. subst (IsFair s r) (sym same) (v.fair s r);
}
answered-Inv last now db db' lt (inr (p, status, only, done, same)) paired' paired v = record {
  paired = paired';
  past =
      subst (AnsweredBy now) (sym same)
        (answered-AnsweredBy 0 0 p status now only done last db.requests lt v.past);
  fair = λ s r. subst (IsFair s r) (sym same) (
      answered-IsFair s r p status now only done last db.requests lt v.past (paired.1 s r)
        (v.fair s r));
}

respond-IsAnswered :
    (status : RequestStatus) (id now : ℕ) (db : Db)
    → is_pending status ≡ false
    → IsAnswered now db.requests (respond status id now db).1.requests
unfolding respond
respond-IsAnswered status id now db done =
    elim (Option-cases (find_first (is_pending_id id) db.requests)) [
      | inl n ↦ inl (ground arith)
      | inr (r, e) ↦ inr (is_pending_id id, status, (λ x t. ground arith), done, ground arith)
    ]

accept_request-IsAnswered :
    (draw : Draw) (id now : ℕ) (db : Db)
    → IsAnswered now db.requests (accept_request draw id now db).1.requests
unfolding accept_request is_pending
accept_request-IsAnswered draw id now db =
    elim (Option-cases (find_first (is_pending_id id) db.requests)) [
      | inl n ↦ inl (ground arith)
      | inr (r, e) ↦ inr (is_pending_id id, accepted, (λ x t. ground arith), refl, ground arith)
    ]

-- A service call leaves the requests as they were, or as the write in it does.
accept-IsAnswered :
    (draw : Draw) (recipient id now : ℕ) (db : Db)
    → IsAnswered now db.requests (accept draw recipient id now db).1.requests
unfolding accept
accept-IsAnswered draw recipient id now db =
    let mid = accept_request draw id now db in
    let wrote = accept_request-IsAnswered draw id now db in
    elim (Option-cases (find_first (is_id id) db.requests)) [
      | inl n ↦ inl (ground arith)
      | inr (x, e) ↦ elim (Bool-cases (x.recipient_id == recipient)) [
        | inr k ↦ inl (ground arith)
        | inl t ↦ elim (Bool-cases (is_blocked_either_way x.sender_id x.recipient_id db)) [
          | inl b ↦ inl (ground arith)
          | inr o ↦
              let same : (accept draw recipient id now db).1.requests ≡ mid.1.requests =
                elim (Result-cases mid) [
                  | inl (y, q) ↦ ground arith
                  | inr (none, q) ↦ ground arith
                  | inr (some y, q) ↦ ground arith
                ] in
              subst (IsAnswered now db.requests) (sym same) wrote
        ]
      ]
    ]

reject-IsAnswered :
    (recipient id now : ℕ) (db : Db)
    → IsAnswered now db.requests (reject recipient id now db).1.requests
unfolding reject reject_request is_pending
reject-IsAnswered recipient id now db =
    let mid = respond rejected id now db in
    let wrote = respond-IsAnswered rejected id now db refl in
    elim (Option-cases (find_first (is_id id) db.requests)) [
      | inl n ↦ inl (ground arith)
      | inr (x, e) ↦ elim (Bool-cases (x.recipient_id == recipient)) [
        | inr k ↦ inl (ground arith)
        | inl t ↦
            let same : (reject recipient id now db).1.requests ≡ mid.1.requests =
              elim (Result-cases mid) [
                | inl (y, q) ↦ ground arith
                | inr (none, q) ↦ ground arith
                | inr (some y, q) ↦ ground arith
              ] in
            subst (IsAnswered now db.requests) (sym same) wrote
      ]
    ]

withdraw-IsAnswered :
    (sender id now : ℕ) (db : Db)
    → IsAnswered now db.requests (withdraw sender id now db).1.requests
unfolding withdraw withdraw_request is_pending
withdraw-IsAnswered sender id now db =
    let mid = respond cancelled id now db in
    let wrote = respond-IsAnswered cancelled id now db refl in
    elim (Option-cases (find_first (is_id id) db.requests)) [
      | inl n ↦ inl (ground arith)
      | inr (x, e) ↦ elim (Bool-cases (x.sender_id == sender)) [
        | inr k ↦ inl (ground arith)
        | inl t ↦
            let same : (withdraw sender id now db).1.requests ≡ mid.1.requests =
              elim (Result-cases mid) [
                | inl (y, q) ↦ ground arith
                | inr (none, q) ↦ ground arith
                | inr (some y, q) ↦ ground arith
              ] in
            subst (IsAnswered now db.requests) (sym same) wrote
      ]
    ]

expire-IsAnswered :
    (now : ℕ) (db : Db) → IsAnswered now db.requests (expire_pending_requests now db).requests
unfolding expire_pending_requests is_pending
expire-IsAnswered now db = inr (is_overdue now, expired, (λ x t. ground arith), refl, refl)

-- What anyone does but send a request.
pub data Answer : Type 0 where
  accepts : Draw → ℕ → ℕ → Answer
  rejects : ℕ → ℕ → Answer
  withdraws : ℕ → ℕ → Answer
  expires : Answer
  blocks_user : ℕ → ℕ → Answer
  unblocks_user : ℕ → ℕ → Answer

unfoldable pub call_of : Answer → ℕ → History.Call
call_of (accepts draw recipient id) now = History.accepts draw recipient id now
call_of (rejects recipient id) now = History.rejects recipient id now
call_of (withdraws sender id) now = History.withdraws sender id now
call_of expires now = History.expires now
call_of (blocks_user blocker blocked) now = History.blocks_user blocker blocked
call_of (unblocks_user blocker blocked) now = History.unblocks_user blocker blocked

step-IsAnswered :
    (a : Answer) (now : ℕ) (db : Db)
    → IsAnswered now db.requests (History.step db (call_of a now)).requests
unfolding History.step call_of
step-IsAnswered (accepts draw recipient id) now db = accept-IsAnswered draw recipient id now db
step-IsAnswered (rejects recipient id) now db = reject-IsAnswered recipient id now db
step-IsAnswered (withdraws sender id) now db = withdraw-IsAnswered sender id now db
step-IsAnswered expires now db = expire-IsAnswered now db
step-IsAnswered (blocks_user blocker blocked) now db = inl (block-tables blocker blocked db).0
step-IsAnswered (unblocks_user blocker blocked) now db = inl (unblock-tables blocker blocked db).0

pub answer-Inv :
    (a : Answer) (last now : ℕ) (db : Db)
    → last < now
    → Inv last db
    → Inv now (History.step db (call_of a now))
answer-Inv a last now db lt v =
    answered-Inv last now db _ lt (step-IsAnswered a now db)
      (History.step-Paired (call_of a now) db v.paired) v.paired v
