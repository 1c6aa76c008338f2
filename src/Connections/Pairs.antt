-- ===== src/Connections/Pairs.antt =====
-- What the tables of requests and connections agree on, and that each write keeps it
-- (connections.repository.ts).
use convene.Common.{
  ℕ, ◌≤◌, ◌<◌, ◌≡◌, ◌≢◌, refl, inl, inr, subst, Bool, false, Option, none, List, arith, ◌==◌,
  Bool-cases, Option-outcome, All, count, find_first, find_first-none, find_first-All, update_where,
  insert, any-none, All-update, All-insert, All-false-count, count-insert, count-update-le,
}
use convene.Errors.{Result}
use convene.Connections.{
  RequestStatus, accepted, expired, Request, Connection, Db, is_pending, is_pending_id,
  is_pending_between, is_active_pair,
}
use convene.Connections.Requests.{
  CreateConnectionRequestInput, Draw, answered, new_request, is_refused, create_request, respond,
  is_overdue, expire_pending_requests, lower, upper, new_connection, resolve_connection,
  accept_request,
}

abbrev pub IsOrdered : Connection → Type 0
IsOrdered c = c.user_a_id < c.user_b_id

abbrev pub IsProper : Request → Type 0
IsProper r = r.sender_id ≢ r.recipient_id

-- No request is to oneself, and there is at most one pending from one user to another; connections
-- hold their pair in order, and there is at most one active for a pair.
unfoldable pub Paired : Db → Type 0
Paired db =
    All IsProper db.requests
    × ((s r : ℕ) → count (is_pending_between s r) db.requests ≤ 1)
    × All IsOrdered db.connections
    × ((a b : ℕ) → count (is_active_pair a b) db.connections ≤ 1)

-- An answer makes no request pending.
answer-le :
    (status : RequestStatus) (now s r : ℕ) (p : Request → Bool) (requests : List Request)
    → is_pending status ≡ false
    → count (is_pending_between s r) (update_where p (answered status now) requests)
      ≤ count (is_pending_between s r) requests
answer-le status now s r p requests done =
    count-update-le (is_pending_between s r) p (answered status now) requests
      (λ x t q. absurd (ground arith))

pub answer-Paired :
    (status : RequestStatus) (now : ℕ) (p : Request → Bool) (db : Db)
    → is_pending status ≡ false
    → Paired db
    → Paired (record db { requests = update_where p (answered status now) db.requests })
unfolding Paired
answer-Paired status now p db done (proper, one, ordered, pair) = (
  All-update IsProper p (answered status now) db.requests (λ x h t. h) proper,
  (λ s r. omega (arith, one s r, answer-le status now s r p db.requests done)),
  ordered,
  pair,
)

pub respond-Paired :
    (status : RequestStatus) (id now : ℕ) (db : Db)
    → is_pending status ≡ false
    → Paired db
    → Paired (respond status id now db).1
unfolding respond
respond-Paired status id now db done h =
    Option-outcome (λ (r : Result (Option Request) × Db). Paired r.1)
      (find_first (is_pending_id id) db.requests) _ _ (λ e. h)
      (λ r e. answer-Paired status now (is_pending_id id) db done h)

pub expire-Paired : (now : ℕ) (db : Db) → Paired db → Paired (expire_pending_requests now db)
unfolding expire_pending_requests is_pending
expire-Paired now db h = answer-Paired expired now (is_overdue now) db refl h

only_pending :
    (s r : ℕ) (input : CreateConnectionRequestInput) (new : Request) (requests : List Request)
    → new.sender_id ≡ input.sender_id
    → new.recipient_id ≡ input.recipient_id
    → count (is_pending_between input.sender_id input.recipient_id) requests ≡ 0
    → count (is_pending_between s r) requests ≤ 1
    → count (is_pending_between s r) (insert new requests) ≤ 1
only_pending s r input new requests same_sender same_recipient free one =
    let added = count-insert (is_pending_between s r) new requests in
    elim (Bool-cases (is_pending_between s r new)) [
      | inl t ↦
          let first : input.sender_id ≡ s = ground arith in
          let second : input.recipient_id ≡ r = ground arith in
          let nobody =
            subst (λ y. count (is_pending_between s y) requests ≡ 0) second
              (subst (λ x. count (is_pending_between x input.recipient_id) requests ≡ 0) first
                free) in
          ground arith
      | inr f ↦ ground arith
    ]

accepted_done : is_pending accepted ≡ false
unfolding is_pending
accepted_done = refl

pub create_request-Paired :
    (id : ℕ) (input : CreateConnectionRequestInput) (now : ℕ) (db : Db)
    → Paired db
    → Paired (create_request id input now db).1
unfolding Paired create_request
create_request-Paired id input now db (proper, one, ordered, pair) =
    elim (Bool-cases (is_refused input db)) [
      | inl t ↦ rw t (proper, one, ordered, pair)
      | inr f ↦
          let new = new_request id input now in
          let free =
            All-false-count (is_pending_between input.sender_id input.recipient_id) db.requests (
              any-none (is_pending_between input.sender_id input.recipient_id) db.requests
                (ground arith)) in
          let other : (input.sender_id == input.recipient_id) ≡ false = ground arith in
          rw f (
            All-insert IsProper new db.requests proper (λ same. ground arith),
            (λ s r. only_pending s r input new db.requests refl refl free (one s r)),
            ordered,
            pair,
          )
    ]

-- A connection that is made for a pair without an active one is the only one.
made-pair :
    (id now : ℕ) (r : Request) (rows : List Connection)
    → find_first (is_active_pair (lower r) (upper r)) rows ≡ none
    → ((a b : ℕ) → count (is_active_pair a b) rows ≤ 1)
    → (a b : ℕ) → count (is_active_pair a b) (insert (new_connection id r now) rows) ≤ 1
made-pair id now r rows e pair a b =
    let new = new_connection id r now in
    let added = count-insert (is_active_pair a b) new rows in
    let free =
      All-false-count (is_active_pair (lower r) (upper r)) rows
        (find_first-none (is_active_pair (lower r) (upper r)) rows e) in
    elim (Bool-cases (is_active_pair a b new)) [
      | inl t ↦
          let first : lower r ≡ a = ground arith in
          let second : upper r ≡ b = ground arith in
          let nobody =
            subst (λ y. count (is_active_pair a y) rows ≡ 0) second
              (subst (λ x. count (is_active_pair x (upper r)) rows ≡ 0) first free) in
          ground arith
      | inr f ↦ ground (arith, pair a b)
    ]

-- The connection of a proper request, found or made.
resolve-Paired :
    (id now : ℕ) (r : Request) (rows : List Connection)
    → IsProper r
    → All IsOrdered rows
    → ((a b : ℕ) → count (is_active_pair a b) rows ≤ 1)
    → All IsOrdered (resolve_connection id r now rows).1
      × ((a b : ℕ) → count (is_active_pair a b) (resolve_connection id r now rows).1 ≤ 1)
resolve-Paired id now r rows proper ordered pair =
    Option-outcome
      (λ (x : Connection × List Connection).
        All IsOrdered x.1 × ((a b : ℕ) → count (is_active_pair a b) x.1 ≤ 1))
      (find_first (is_active_pair (lower r) (upper r)) rows) _ _
      (λ e. (
        All-insert IsOrdered (new_connection id r now) rows ordered (ground (arith, proper)),
        made-pair id now r rows e pair,
      ))
      (λ c e. (ordered, pair))

pub accept_request-Paired :
    (draw : Draw) (id now : ℕ) (db : Db) → Paired db → Paired (accept_request draw id now db).1
unfolding accept_request Paired
accept_request-Paired draw id now db (proper, one, ordered, pair) =
    Option-outcome (λ (x : Result (Option Connection) × Db). Paired x.1)
      (find_first (is_pending_id id) db.requests) _ _ (λ e. (proper, one, ordered, pair))
      (λ r e.
        let mine = find_first-All IsProper (is_pending_id id) db.requests {a = r} proper e in
        let made = resolve-Paired draw.connection now r db.connections mine ordered pair in
        let after =
          answer-Paired accepted now (is_pending_id id) db accepted_done
            (proper, one, ordered, pair) in
        (after.0, after.1, made.0, made.1))
