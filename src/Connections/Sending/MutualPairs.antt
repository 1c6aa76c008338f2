-- ===== src/Connections/Sending/MutualPairs.antt =====
-- A mutual acceptance keeps the tables of requests and connections in agreement.
use convene.Common.{
  ℕ, ◌≤◌, ◌≡◌, refl, inl, inr, subst, false, Option, none, List, arith, ◌==◌, Bool-cases,
  Option-outcome, All, All-insert, All-false-count, count, count-insert, find_first,
  find_first-none, insert, update_where,
}
use convene.Errors.{Result}
use convene.Connections.{
  accepted, Request, Connection, Db, is_pending, is_pending_id, is_pending_between, is_active_pair,
}
use convene.Connections.Requests.{CreateConnectionRequestInput, Draw, answered, lower, upper}
use convene.Connections.Mutual.{
  MutualAccept, accept_mutual_requests, accepted_request, mutual_connection, resolve_mutual,
}
use convene.Connections.Pairs.{Paired, IsOrdered, IsProper, answer-Paired}

accepted_done : is_pending accepted ≡ false
unfolding is_pending
accepted_done = refl

made-pair :
    (id now : ℕ) (existing row : Request) (rows : List Connection)
    → find_first (is_active_pair (lower row) (upper row)) rows ≡ none
    → ((a b : ℕ) → count (is_active_pair a b) rows ≤ 1)
    → (a b : ℕ)
    → count (is_active_pair a b) (insert (mutual_connection id existing row now) rows) ≤ 1
made-pair id now existing row rows e pair a b =
    let new = mutual_connection id existing row now in
    let added = count-insert (is_active_pair a b) new rows in
    let free =
      All-false-count (is_active_pair (lower row) (upper row)) rows
        (find_first-none (is_active_pair (lower row) (upper row)) rows e) in
    elim (Bool-cases (is_active_pair a b new)) [
      | inl t ↦
          let first : lower row ≡ a = ground arith in
          let second : upper row ≡ b = ground arith in
          let nobody =
            subst (λ y. count (is_active_pair a y) rows ≡ 0) second
              (subst (λ x. count (is_active_pair x (upper row)) rows ≡ 0) first free) in
          ground arith
      | inr f ↦ ground (arith, pair a b)
    ]

resolve_mutual-Paired :
    (id now : ℕ) (existing row : Request) (rows : List Connection)
    → IsProper row
    → All IsOrdered rows
    → ((a b : ℕ) → count (is_active_pair a b) rows ≤ 1)
    → All IsOrdered (resolve_mutual id existing row now rows).1
      × ((a b : ℕ) → count (is_active_pair a b) (resolve_mutual id existing row now rows).1 ≤ 1)
resolve_mutual-Paired id now existing row rows proper ordered pair =
    Option-outcome
      (λ (x : Connection × List Connection).
        All IsOrdered x.1 × ((a b : ℕ) → count (is_active_pair a b) x.1 ≤ 1))
      (find_first (is_active_pair (lower row) (upper row)) rows) _ _
      (λ e. (
        All-insert IsOrdered (mutual_connection id existing row now) rows ordered
            (ground (arith, proper)),
        made-pair id now existing row rows e pair,
      ))
      (λ c e. (ordered, pair))

not_pending : (s r : ℕ) (row : Request) → row.status ≡ accepted → is_pending_between s r row ≡ false
unfolding is_pending
not_pending s r row e = ground arith

pub accept_mutual-Paired :
    (draw : Draw) (id : ℕ) (input : CreateConnectionRequestInput) (now : ℕ) (db : Db)
    → Paired db
    → Paired (accept_mutual_requests draw id input now db).1
unfolding accept_mutual_requests Paired is_pending
accept_mutual-Paired draw id input now db (proper, one, ordered, pair) =
    Option-outcome (λ (x : Result (Option MutualAccept) × Db). Paired x.1)
      (find_first (is_pending_id id) db.requests) _ _ (λ e. (proper, one, ordered, pair))
      (λ r e. elim (Bool-cases (input.sender_id == input.recipient_id)) [
        | inl t ↦ rw t (proper, one, ordered, pair)
        | inr k ↦
            let row = accepted_request draw.request input now in
            let mine : IsProper row = λ same. ground arith in
            let made =
              resolve_mutual-Paired draw.connection now (answered accepted now r) row db.connections
                mine ordered pair in
            let after =
              answer-Paired accepted now (is_pending_id id) db accepted_done
                (proper, one, ordered, pair) in
            rw k (
              All-insert IsProper row _ after.0 mine,
              (λ s r. ground (
                arith,
                after.1 s r,
                count-insert (is_pending_between s r) row
                    (update_where (is_pending_id id) (answered accepted now) db.requests),
                not_pending s r row refl,
              )),
              made.0,
              made.1,
            )
      ])
