-- ===== src/Connections/Answers.antt =====
-- What a call leaves of an answered request, and how an acceptance connects the pair (connections.repository.ts,
-- connections.service.ts).
use convene.Common.{
  ℕ, ◌≤◌, ◌≡◌, refl, sym, ap, ◌∙◌, inl, inr, subst, false, none, some, List, arith, Bool-cases,
  Option-cases, Option-outcome, count, find_first, find_first-update_kept, find_first-insert,
  find_first-count, count-insert, ==_refl,
}
use convene.Errors.{Result-cases}
use convene.Connections.{
  RequestStatus, accepted, rejected, cancelled, expired, Request, Connection, Db, is_pending,
  is_pending_id, is_id, is_active_pair,
}
use convene.Connections.Requests.{
  CreateConnectionRequestInput, Draw, answered, new_request, is_refused, create_request, respond,
  is_overdue, withdraw_request, reject_request, expire_pending_requests, lower, upper,
  new_connection, resolve_connection, accept_request,
}
use convene.Connections.Service.{accept, reject, withdraw}
use convene.Connections.Pairs.{Paired, accept_request-Paired}
use convene.Connections.History.{
  Call, creates, accepts, rejects, withdraws, expires, blocks_user, unblocks_user, step,
  block-tables, unblock-tables,
}

respond-kept :
    (status : RequestStatus) (id now k : ℕ) (db : Db) {r : Request}
    → find_first (is_id k) db.requests ≡ some r
    → is_pending r.status ≡ false
    → find_first (is_id k) (respond status id now db).1.requests ≡ some r
unfolding respond
respond-kept status id now k db {r = r} e done =
    let kept =
      find_first-update_kept (is_id k) (is_pending_id id) (answered status now) db.requests {a = r}
        (λ x. refl) e (ground arith) in
    elim (Option-cases (find_first (is_pending_id id) db.requests)) [
      | inl n ↦ ground arith
      | inr (a, f) ↦ ground arith
    ]

accept_request-kept :
    (draw : Draw) (id now k : ℕ) (db : Db) {r : Request}
    → find_first (is_id k) db.requests ≡ some r
    → is_pending r.status ≡ false
    → find_first (is_id k) (accept_request draw id now db).1.requests ≡ some r
unfolding accept_request
accept_request-kept draw id now k db {r = r} e done =
    let kept =
      find_first-update_kept (is_id k) (is_pending_id id) (answered accepted now) db.requests
        {a = r} (λ x. refl) e (ground arith) in
    elim (Option-cases (find_first (is_pending_id id) db.requests)) [
      | inl n ↦ ground arith
      | inr (a, f) ↦ ground arith
    ]

accept-kept :
    (draw : Draw) (recipient id now k : ℕ) (db : Db) {r : Request}
    → find_first (is_id k) db.requests ≡ some r
    → find_first (is_id k) (accept_request draw id now db).1.requests ≡ some r
    → find_first (is_id k) (accept draw recipient id now db).1.requests ≡ some r
unfolding accept
accept-kept draw recipient id now k db {r = r} e kept =
    elim (Result-cases (accept_request draw id now db)) [
      | inl (x, q) ↦ ground arith
      | inr (none, q) ↦ ground arith
      | inr (some c, q) ↦ ground arith
    ]

reject-kept :
    (recipient id now k : ℕ) (db : Db) {r : Request}
    → find_first (is_id k) db.requests ≡ some r
    → find_first (is_id k) (respond rejected id now db).1.requests ≡ some r
    → find_first (is_id k) (reject recipient id now db).1.requests ≡ some r
unfolding reject reject_request
reject-kept recipient id now k db {r = r} e kept =
    elim (Result-cases (respond rejected id now db)) [
      | inl (x, q) ↦ ground arith
      | inr (none, q) ↦ ground arith
      | inr (some c, q) ↦ ground arith
    ]

withdraw-kept :
    (sender id now k : ℕ) (db : Db) {r : Request}
    → find_first (is_id k) db.requests ≡ some r
    → find_first (is_id k) (respond cancelled id now db).1.requests ≡ some r
    → find_first (is_id k) (withdraw sender id now db).1.requests ≡ some r
unfolding withdraw withdraw_request
withdraw-kept sender id now k db {r = r} e kept =
    elim (Result-cases (respond cancelled id now db)) [
      | inl (x, q) ↦ ground arith
      | inr (none, q) ↦ ground arith
      | inr (some c, q) ↦ ground arith
    ]

create-kept :
    (id : ℕ) (input : CreateConnectionRequestInput) (now k : ℕ) (db : Db) {r : Request}
    → find_first (is_id k) db.requests ≡ some r
    → find_first (is_id k) (create_request id input now db).1.requests ≡ some r
unfolding create_request
create-kept id input now k db {r = r} e =
    let more = find_first-insert (is_id k) (new_request id input now) db.requests {a = r} e in
    elim (Bool-cases (is_refused input db)) [ inl t ↦ ground arith | inr f ↦ ground arith ]

expire-kept :
    (now k : ℕ) (db : Db) {r : Request}
    → find_first (is_id k) db.requests ≡ some r
    → is_pending r.status ≡ false
    → find_first (is_id k) (expire_pending_requests now db).requests ≡ some r
unfolding expire_pending_requests
expire-kept now k db {r = r} e done =
    find_first-update_kept (is_id k) (is_overdue now) (answered expired now) db.requests {a = r}
      (λ x. refl) e (ground arith)

-- A request that is not pending stays as it is in any call but sendRequest.
pub step-answered :
    (c : Call) (db : Db) (k : ℕ) {r : Request}
    → find_first (is_id k) db.requests ≡ some r
    → is_pending r.status ≡ false
    → find_first (is_id k) (step db c).requests ≡ some r
unfolding step
step-answered (creates id input now) db k {r = r} e done = create-kept id input now k db {r = r} e
step-answered (accepts draw recipient id now) db k {r = r} e done =
    accept-kept draw recipient id now k db {r = r} e
      (accept_request-kept draw id now k db {r = r} e done)
step-answered (rejects recipient id now) db k {r = r} e done =
    reject-kept recipient id now k db {r = r} e (respond-kept rejected id now k db {r = r} e done)
step-answered (withdraws sender id now) db k {r = r} e done =
    withdraw-kept sender id now k db {r = r} e (respond-kept cancelled id now k db {r = r} e done)
step-answered (expires now) db k {r = r} e done = expire-kept now k db {r = r} e done
step-answered (blocks_user blocker blocked) db k {r = r} e done =
    ap (find_first (is_id k)) (block-tables blocker blocked db).0 ∙ e
step-answered (unblocks_user blocker blocked) db k {r = r} e done =
    ap (find_first (is_id k)) (unblock-tables blocker blocked db).0 ∙ e

resolve-has :
    (id now : ℕ) (r : Request) (rows : List Connection)
    → 1 ≤ count (is_active_pair (lower r) (upper r)) (resolve_connection id r now rows).1
resolve-has id now r rows =
    Option-outcome
      (λ (x : Connection × List Connection). 1 ≤ count (is_active_pair (lower r) (upper r)) x.1)
      (find_first (is_active_pair (lower r) (upper r)) rows) _ _
      (λ e.
        let added =
          count-insert (is_active_pair (lower r) (upper r)) (new_connection id r now) rows in
        let low = ==_refl (lower r) in let high = ==_refl (upper r) in ground arith)
      (λ c e. find_first-count (is_active_pair (lower r) (upper r)) rows {a = c} e)

accept_request-rows :
    (draw : Draw) (id now : ℕ) (db : Db) (r : Request)
    → find_first (is_pending_id id) db.requests ≡ some r
    → (accept_request draw id now db).1.connections
      ≡ (resolve_connection draw.connection r now db.connections).1
unfolding accept_request
accept_request-rows draw id now db r e = ground arith

pair_le : (db : Db) (a b : ℕ) → Paired db → count (is_active_pair a b) db.connections ≤ 1
unfolding Paired
pair_le db a b (proper, one, ordered, pair) = pair a b

-- A pending request that is accepted, where the tables agree, leaves exactly one active connection of
-- its pair.
pub accept_request-connects :
    (draw : Draw) (id now : ℕ) (db : Db) (r : Request)
    → Paired db
    → find_first (is_pending_id id) db.requests ≡ some r
    → count (is_active_pair (lower r) (upper r)) (accept_request draw id now db).1.connections ≡ 1
accept_request-connects draw id now db r h e =
    let most =
      pair_le (accept_request draw id now db).1 (lower r) (upper r)
        (accept_request-Paired draw id now db h) in
    let least = resolve-has draw.connection now r db.connections in
    let rows = accept_request-rows draw id now db r e in
    omega
      (arith, most, subst (λ x. 1 ≤ count (is_active_pair (lower r) (upper r)) x) (sym rows) least)
