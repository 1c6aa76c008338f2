-- ===== src/Connections/Sending/Refusal.antt =====
-- A sender who was rejected twice, last, passes no cool-down.
use convene.Common.{
  ℕ, ◌≤◌, ◌≡◌, ◌≢◌, refl, inl, inr, true, List, [], ◌∷◌, arith, All, All-both, All-select,
  select-All, count, newest, newest-All, newest-none, newest-max, select, Bool-cases, Option-cases,
}
use convene.Connections.{
  RequestStatus, pending, accepted, rejected, cancelled, expired, Request, Db,
}
use convene.Connections.Cooldown.{
  is_terminal_between, is_rejected_between, responded, is_rejected,
  find_most_recent_terminal_request, count_rejected_requests,
}
use convene.Connections.Sending.Outcomes.{is_past_terminal}
use convene.Connections.Sending.Retries.{is_rejected_at, IsEarlier, Final}

rejected_status : (t : RequestStatus) → is_rejected t ≡ true → t ≡ rejected
rejected_status rejected h = refl
rejected_status pending h = cc
rejected_status accepted h = cc
rejected_status cancelled h = cc
rejected_status expired h = cc

count-selected :
    (s r at : ℕ) (rows : List Request)
    → count (is_rejected_at s r at) (select (is_terminal_between s r) rows)
      ≡ count (is_rejected_at s r at) rows
count-selected s r at [] = refl
count-selected s r at (x ∷ xs) = ground (arith, count-selected s r at xs, rejected_status x.status)

at-le :
    (s r at m : ℕ) (xs : List Request)
    → All (λ x. responded x ≤ m) xs
    → 1 ≤ count (is_rejected_at s r at) xs
    → at ≤ m
at-le s r at m [] h c = absurd (omega arith)
at-le s r at m (x ∷ xs) h c = ground (arith, at-le s r at m xs h.1, h.0)

pub Final-refused :
    (s r now : ℕ) (db : Db)
    → Final s r db.requests
    → count (is_rejected_between s r) db.requests ≡ 2
    → is_past_terminal
        (find_most_recent_terminal_request s r db)
        (count_rejected_requests s r db)
        now
      ≢ true
unfolding find_most_recent_terminal_request count_rejected_requests
Final-refused s r now db (at, pos, mark, early) two h =
    let rows = db.requests in
    let chosen = select (is_terminal_between s r) rows in
    let there = count-selected s r at rows in
    elim (Option-cases (newest responded chosen)) [
      | inl n ↦ absurd (ground (arith, newest-none responded chosen n))
      | inr (a, e) ↦
          let late =
            at-le s r at (responded a) chosen (newest-max responded chosen {a = a} e)
              (omega arith) in
          let mine =
            newest-All (λ x. IsEarlier s r at x × (is_terminal_between s r x ≡ true)) responded
              chosen {a = a}
              (All-both _ _ chosen
                (All-select (IsEarlier s r at) (is_terminal_between s r) rows early)
                (select-All (is_terminal_between s r) rows))
              e in
          elim (Bool-cases (is_rejected a.status)) [
            | inl t ↦ ground (arith, rejected_status a.status t)
            | inr k ↦ absurd (omega (arith, mine.0 mine.1 k))
          ]
    ]
