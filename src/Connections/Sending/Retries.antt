-- ===== src/Connections/Sending/Retries.antt =====
-- How often a recipient can have rejected the same sender, told from the table of requests.
use convene.Common.{
  ℕ, ◌+◌, ◌≤◌, ◌<◌, ◌≡◌, refl, ◌⊎◌, inl, inr, Bool, true, false, ◌&&◌, List, [], ◌∷◌, arith, ◌==◌,
  All, All-imp, All-both, All-update, All-insert, count, count-none, count-insert, count-update-ge,
  leb, ==_refl, update_where, insert, Bool-cases, if◌then◌else◌,
}
use convene.Connections.{
  RequestStatus, pending, accepted, rejected, cancelled, expired, Request, is_pending,
  is_pending_between,
}
use convene.Connections.Requests.{answered}
use convene.Connections.Cooldown.{
  is_between, is_terminal, is_rejected, is_terminal_between, is_rejected_between, responded,
}

-- A rejected request of the pair that was answered at `at`.
abbrev pub is_rejected_at : ℕ → ℕ → ℕ → Request → Bool
is_rejected_at sender recipient at x = is_rejected_between sender recipient x && responded x == at

-- An answer of another kind to a request of the pair came before `at`.
abbrev pub IsEarlier : ℕ → ℕ → ℕ → Request → Type 0
IsEarlier sender recipient at x =
    is_terminal_between sender recipient x ≡ true → is_rejected x.status ≡ false → responded x < at

-- The last answer that the pair has is a rejection.
abbrev pub Final : ℕ → ℕ → List Request → Type 0
Final sender recipient rows =
    (at : ℕ) × (1 ≤ at)
    × (1 ≤ count (is_rejected_at sender recipient at) rows)
    × All (IsEarlier sender recipient at) rows

-- At most one rejection, or two with nothing pending and the last answer a rejection.
abbrev pub IsFair : ℕ → ℕ → List Request → Type 0
IsFair sender recipient rows =
    (count (is_rejected_between sender recipient) rows ≤ 1)
    ⊎ ((count (is_rejected_between sender recipient) rows ≡ 2)
        × (count (is_pending_between sender recipient) rows ≡ 0)
        × Final sender recipient rows)

abbrev pub AnsweredBy : ℕ → List Request → Type 0
AnsweredBy now rows = All (λ x. responded x ≤ now) rows

module _ (s r : ℕ) (p : Request → Bool) (status : RequestStatus) (now : ℕ)
    (only : (x : Request) → p x ≡ true → is_pending x.status ≡ true)
    (done : is_pending status ≡ false) where
  -- A write of an answer to pending rows.
  abbrev after : List Request → List Request
  after rows = update_where p (answered status now) rows

  pending_not_rejected : (t : RequestStatus) → is_pending t ≡ true → is_rejected t ≡ false
  unfolding is_pending
  pending_not_rejected pending h = refl
  pending_not_rejected accepted h = cc
  pending_not_rejected rejected h = cc
  pending_not_rejected cancelled h = cc
  pending_not_rejected expired h = cc

  written : Request → Bool
  written x = p x && is_between s r x

  rejected-after :
      (rows : List Request)
      → count (is_rejected_between s r) (after rows)
        ≡ count (is_rejected_between s r) rows
          + (if is_rejected status then count written rows else 0)
  unfolding written
  rejected-after [] = ground arith
  rejected-after (x ∷ xs) = ground (arith, rejected-after xs, only x, pending_not_rejected x.status)

  pending-after :
      (rows : List Request)
      → count (is_pending_between s r) (after rows) + count written rows
        ≡ count (is_pending_between s r) rows
  unfolding written
  pending-after [] = ground arith
  pending-after (x ∷ xs) = ground (arith, pending-after xs, only x)

  rejected_at-after :
      (at : ℕ) (rows : List Request)
      → count (is_rejected_at s r at) rows ≤ count (is_rejected_at s r at) (after rows)
  rejected_at-after at rows =
      count-update-ge (is_rejected_at s r at) p (answered status now) rows
        (λ x t q. ground (arith, only x, pending_not_rejected x.status))

  -- A pair with nothing pending is not written.
  IsEarlier-kept :
      (at : ℕ) (rows : List Request)
      → count (is_pending_between s r) rows ≡ 0
      → All (IsEarlier s r at) rows
      → All (IsEarlier s r at) (after rows)
  IsEarlier-kept at rows free early =
      All-imp (λ x. IsEarlier s r at x × (is_pending_between s r x ≡ false)) (IsEarlier s r at)
        (after rows) (λ x h. h.0)
        (All-update (λ x. IsEarlier s r at x × (is_pending_between s r x ≡ false)) p
          (answered status now) rows
          (λ x h t. ((λ a b. absurd (ground (arith, only x t))), ground arith))
          (All-both (IsEarlier s r at) (λ x. is_pending_between s r x ≡ false) rows early
            (count-none (is_pending_between s r) rows free)))

  IsEarlier-new :
      (last : ℕ) (rows : List Request)
      → last < now
      → is_rejected status ≡ true
      → AnsweredBy last rows
      → All (IsEarlier s r now) (after rows)
  IsEarlier-new last rows lt rej past =
      All-update (IsEarlier s r now) p (answered status now) rows
        (λ x h t a b. absurd (ground arith))
        (All-imp (λ x. responded x ≤ last) (IsEarlier s r now) rows (λ x h a b. omega arith) past)

  rejected_at-new :
      (rows : List Request)
      → is_rejected status ≡ true
      → count written rows ≤ count (is_rejected_at s r now) (after rows)
  unfolding written
  rejected_at-new [] rej = omega arith
  rejected_at-new (x ∷ xs) rej = ground (arith, rejected_at-new xs rej, ==_refl now)

  pub answered-IsFair :
      (last : ℕ) (rows : List Request)
      → last < now
      → AnsweredBy last rows
      → count (is_pending_between s r) rows ≤ 1
      → IsFair s r rows
      → IsFair s r (after rows)
  answered-IsFair last rows lt past one (inr (two, free, (at, pos, mark, early))) =
      let move = rejected-after rows in
      let gone = pending-after rows in
      inr (
        ground arith,
        omega arith,
        (at, pos, omega (arith, rejected_at-after at rows), IsEarlier-kept at rows free early),
      )
  answered-IsFair last rows lt past one (inl few) =
      let move = rejected-after rows in
      let gone = pending-after rows in
      elim (Bool-cases (is_rejected status)) [
        | inr other ↦ inl (ground arith)
        | inl rej ↦ elim (Bool-cases (leb (count (is_rejected_between s r) (after rows)) 1)) [
          | inl small ↦ inl (ground arith)
          | inr big ↦ inr (
            ground arith,
            ground arith,
            (
              now,
              omega arith,
              ground (arith, rejected_at-new rows rej),
              IsEarlier-new last rows lt rej past,
            ),
          )
        ]
      ]

  pub answered-AnsweredBy :
      (last : ℕ) (rows : List Request)
      → last < now
      → AnsweredBy last rows
      → AnsweredBy now (after rows)
  answered-AnsweredBy last rows lt past =
      All-update (λ x. responded x ≤ now) p (answered status now) rows (λ x h t. omega arith)
        (All-imp (λ x. responded x ≤ last) (λ x. responded x ≤ now) rows (λ x h. omega arith) past)

-- A new row that is pending or accepted.
pub inserted-IsFair :
    (s r : ℕ) (new : Request) (rows : List Request)
    → is_terminal new.status ≡ false
    → is_rejected new.status ≡ false
    → (is_pending_between s r new ≡ true → count (is_rejected_between s r) rows ≤ 1)
    → IsFair s r rows
    → IsFair s r (insert new rows)
inserted-IsFair s r new rows t j allowed (inl few) =
    inl (ground (arith, count-insert (is_rejected_between s r) new rows))
inserted-IsFair s r new rows t j allowed (inr (two, free, (at, pos, mark, early))) = inr (
  ground (arith, count-insert (is_rejected_between s r) new rows),
  ground (arith, count-insert (is_pending_between s r) new rows),
  (
    at,
    pos,
    omega (arith, count-insert (is_rejected_at s r at) new rows),
    All-insert (IsEarlier s r at) new rows early (λ a b. absurd (ground arith)),
  ),
)
