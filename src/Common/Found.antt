-- ===== src/Common/Found.antt =====
-- `SELECT … WHERE … LIMIT 1`: what the row found is, and what an update does to it.
use Prim.Native.Nat.{◌≤◌}
use mathlib.Core.Path.{◌≡◌, refl}
use mathlib.Core.Logic.{inl, inr}
use mathlib.Core.Bool.{Bool, true, false}
use mathlib.Core.Option.{none, some}
use mathlib.Core.List.{List, [], ◌∷◌}
use native.Mathlib.Omega.{arith}
use convene.Common.Tests.{Bool-cases}
use convene.Common.Lists.{All, count}
use convene.Common.Table.{find_first, update_where}

module _ {ℓ} {A : Type ℓ} where
  pub find_first-All {κ} :
      (P : A → Type κ) (p : A → Bool) (xs : List A) {a : A}
      → All P xs
      → find_first p xs ≡ some a
      → P a
  find_first-All P p [] h e = cc
  find_first-All P p (x ∷ xs) h e = elim (Bool-cases (p x)) [
    | inl t ↦ ground (arith, h.0)
    | inr f ↦ find_first-All P p xs h.1 (ground arith)
  ]

  -- What a query finds passes its test.
  pub find_first-holds :
      (p : A → Bool) (xs : List A) {a : A} → find_first p xs ≡ some a → p a ≡ true
  find_first-holds p [] e = cc
  find_first-holds p (x ∷ xs) e = elim (Bool-cases (p x)) [
    | inl t ↦ ground arith
    | inr f ↦ find_first-holds p xs (ground arith)
  ]

  -- A query comes back empty exactly when no row passes.
  pub find_first-none :
      (p : A → Bool) (xs : List A) → find_first p xs ≡ none → All (λ x. p x ≡ false) xs
  find_first-none p [] e = tt
  find_first-none p (x ∷ xs) e = elim (Bool-cases (p x)) [
    | inl t ↦ absurd (ground arith)
    | inr f ↦ (f, find_first-none p xs (ground arith))
  ]

  -- A query of rows that an update neither writes nor makes.
  pub find_first-update_other :
      (q p : A → Bool) (f : A → A) (xs : List A)
      → ((x : A) → p x ≡ true → q x ≡ false)
      → ((x : A) → p x ≡ true → q (f x) ≡ false)
      → find_first q (update_where p f xs) ≡ find_first q xs
  find_first-update_other q p f [] h k = refl
  find_first-update_other q p f (x ∷ xs) h k =
      ground (arith, h x, k x, find_first-update_other q p f xs h k)

  -- A row that a query finds, and that an update does not write, is found after it.
  pub find_first-update_kept :
      (q p : A → Bool) (f : A → A) (xs : List A) {a : A}
      → ((x : A) → q (f x) ≡ q x)
      → find_first q xs ≡ some a
      → p a ≡ false
      → find_first q (update_where p f xs) ≡ some a
  find_first-update_kept q p f [] h e n = cc
  find_first-update_kept q p f (x ∷ xs) {a = a} h e n = elim (Bool-cases (q x)) [
    | inl t ↦ let same : x ≡ a = ground arith in ground (arith, h x)
    | inr m ↦ ground (arith, h x, find_first-update_kept q p f xs {a = a} h)
  ]

  pub find_first-count :
      (p : A → Bool) (xs : List A) {a : A} → find_first p xs ≡ some a → 1 ≤ count p xs
  find_first-count p [] e = cc
  find_first-count p (x ∷ xs) {a = a} e = ground (arith, find_first-count p xs {a = a})
