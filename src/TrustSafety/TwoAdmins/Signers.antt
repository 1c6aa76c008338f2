-- ===== src/TrustSafety/TwoAdmins/Signers.antt =====
-- Who has signed for a moderation action, and the two admins that `approve`'s count of
-- distinct admins (moderation-actions.service.ts) stands for.
use convene.Common.{
  ℕ, ◌+◌, ◌≤◌, ◌≡◌, ◌≢◌, inl, inr, Bool, true, false, ◌&&◌, ◌||◌, List, [], ◌∷◌, arith, ◌==◌,
  ==_refl, opt_eq, length, length-append, any, select, insert, Bool-cases, Option-cases,
}
use convene.TrustSafety.{ModerationAction, Approval, activated_row}
use convene.TrustSafety.Actions.{distinct_admins, set_add, set_of_admins}

-- The admin who acted, or one who has approved.
abbrev pub signed : List Approval → ModerationAction → ℕ → Bool
signed approvals row a =
    opt_eq row.admin_id a
    || any (λ p. p.moderation_action_id == row.id && p.admin_id == a) approvals

abbrev pub HasTwoAdmins : List Approval → ModerationAction → Type 0
HasTwoAdmins approvals row =
    (a : ℕ) × (b : ℕ) × (a ≢ b) × (signed approvals row a ≡ true) × (signed approvals row b ≡ true)

any-insert :
    (p : Approval → Bool) (r : Approval) (xs : List Approval)
    → any p xs ≡ true
    → any p (insert r xs) ≡ true
any-insert p r [] h = cc
any-insert p r (x ∷ xs) h = ground (arith, any-insert p r xs)

any-insert_self :
    (p : Approval → Bool) (r : Approval) (xs : List Approval)
    → p r ≡ true
    → any p (insert r xs) ≡ true
any-insert_self p r [] h = ground arith
any-insert_self p r (x ∷ xs) h = ground (arith, any-insert_self p r xs h)

pub signed-insert :
    (r : Approval) (xs : List Approval) (row : ModerationAction) (a : ℕ)
    → signed xs row a ≡ true
    → signed (insert r xs) row a ≡ true
signed-insert r xs row a h =
    ground (arith, any-insert (λ p. p.moderation_action_id == row.id && p.admin_id == a) r xs)

length-set_add : (a : ℕ) (s : List ℕ) → length (set_add a s) ≤ length s + 1
unfolding set_add
length-set_add a s = ground (arith, length-append s (a ∷ []))

-- Where someone has approved, but not `approver`, another admin has.
other_signer :
    (xs : List Approval) (id approver : ℕ)
    → let mine = select (λ p. p.moderation_action_id == id) xs in
      any (λ p. p.admin_id == approver) mine ≡ false
      → 1 ≤ length (set_of_admins mine)
      → (a : ℕ) × (a ≢ approver)
        × (any (λ p. p.moderation_action_id == id && p.admin_id == a) xs ≡ true)
unfolding set_of_admins
other_signer [] id approver k l = absurd (omega arith)
other_signer (x ∷ xs) id approver k l = elim (Bool-cases (x.moderation_action_id == id)) [
  | inl t ↦ (x.admin_id, ground arith, ground arith)
  | inr f ↦
      let (a, n, s) = other_signer xs id approver (ground arith) (ground arith) in
      (a, n, ground arith)
]

two_signers :
    (xs : List Approval) (row : ModerationAction) (id approver : ℕ)
    → row.id ≡ id
    → opt_eq row.admin_id approver ≡ false
    → let mine = select (λ p. p.moderation_action_id == id) xs in
      any (λ p. p.admin_id == approver) mine ≡ false
      → 2 ≤ length (distinct_admins mine approver row.admin_id)
      → (a : ℕ) × (a ≢ approver) × (signed xs row a ≡ true)
unfolding distinct_admins
two_signers xs row id approver same h k l = elim (Option-cases row.admin_id) [
  | inl e ↦
      let mine = select (λ p. p.moderation_action_id == id) xs in
      let few : 1 ≤ length (set_of_admins mine) =
        ground (arith, length-set_add approver (set_of_admins mine)) in
      let (a, n, s) = other_signer xs id approver k few in (a, n, rw same (ground arith))
  | inr (m, e) ↦ (m, ground arith, ground (arith, ==_refl m))
]

abbrev approval_of : ℕ → ℕ → List ℕ → Approval
approval_of id admin rationale = record {
  moderation_action_id = id;
  admin_id = admin;
  rationale = rationale;
}

pub approved-HasTwoAdmins :
    (xs : List Approval) (row : ModerationAction) (id approver : ℕ) (rationale : List ℕ)
    → row.id ≡ id
    → opt_eq row.admin_id approver ≡ false
    → let mine = select (λ p. p.moderation_action_id == id) xs in
      any (λ p. p.admin_id == approver) mine ≡ false
      → 2 ≤ length (distinct_admins mine approver row.admin_id)
      → HasTwoAdmins (insert (approval_of id approver rationale) xs) (activated_row row)
approved-HasTwoAdmins xs row id approver rationale same h k l =
    let (a, n, s) = two_signers xs row id approver same h k l in
    let new = approval_of id approver rationale in
    let self =
      any-insert_self (λ p. p.moderation_action_id == row.id && p.admin_id == approver) new xs
        (ground (arith, same, ==_refl id, ==_refl approver)) in
    (a, approver, n, signed-insert new xs row a s, ground (arith, self))
