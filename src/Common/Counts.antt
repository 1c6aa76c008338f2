-- ===== src/Common/Counts.antt =====
-- How many rows of a table pass a test, before and after a write.
use Prim.Native.Nat.{ℕ, ◌+◌, ◌≤◌}
use mathlib.Core.Path.{◌≡◌, refl, sym, ◌∙◌}
use mathlib.Core.Logic.{◌≢◌, inl, inr}
use mathlib.Core.Bool.{Bool, true, false, ◌&&◌}
use mathlib.Core.Option.{some}
use mathlib.Core.List.{List, [], ◌∷◌}
use native.Mathlib.Omega.{arith}
use convene.Common.Tests.{if◌then◌else◌, ◌==◌, ==_iff, Bool-cases}
use convene.Common.Lists.{All, count}
use convene.Common.Table.{find_first, update_where, delete_where}
use convene.Common.Keys.{Distinct}

module _ {ℓ} {A : Type ℓ} where
  -- An update moves the count of a test by what the written rows had and what they now have.
  pub count-update_move :
      (q p : A → Bool) (f : A → A) (xs : List A)
      → count q (update_where p f xs) + count (λ x. p x && q x) xs
        ≡ count q xs + count (λ x. p x && q (f x)) xs
  count-update_move q p f [] = refl
  count-update_move q p f (x ∷ xs) = ground (arith, count-update_move q p f xs)

  count-absent :
      (q p : A → Bool) (key : A → ℕ) (k n : ℕ) (xs : List A)
      → ((x : A) → p x ≡ true → key x ≡ k)
      → n ≡ k
      → All (λ y. n ≢ key y) xs
      → count (λ x. p x && q x) xs ≡ 0
  count-absent q p key k n [] h e a = refl
  count-absent q p key k n (x ∷ xs) h e a = elim (Bool-cases (p x)) [
    | inl t ↦ absurd (a.0 (e ∙ sym (h x t)))
    | inr f ↦ ground (arith, count-absent q p key k n xs h e a.1)
  ]

  -- Of the rows that a test on the key finds, there is one.
  pub count-one :
      (q p : A → Bool) (key : A → ℕ) (k : ℕ) (xs : List A) {a : A}
      → Distinct key xs
      → ((x : A) → p x ≡ true → key x ≡ k)
      → find_first p xs ≡ some a
      → count (λ x. p x && q x) xs ≡ (if q a then 1 else 0)
  count-one q p key k [] d h e = cc
  count-one q p key k (x ∷ xs) {a} d h e = elim (Bool-cases (p x)) [
    | inl t ↦
        let same : x ≡ a = ground arith in
        let rest = count-absent q p key k (key x) xs h (h x t) d.0 in
        rw (sym same) (ground (arith, rest))
    | inr f ↦ ground (arith, count-one q p key k xs {a = a} d.1 h)
  ]

  -- An update of the one row that a test on the key finds.
  pub count-update_one :
      (q p : A → Bool) (key : A → ℕ) (k : ℕ) (f : A → A) (xs : List A) {a : A}
      → Distinct key xs
      → ((x : A) → p x ≡ true → key x ≡ k)
      → find_first p xs ≡ some a
      → count q (update_where p f xs) + (if q a then 1 else 0)
        ≡ count q xs + (if q (f a) then 1 else 0)
  count-update_one q p key k f xs {a} d h e =
      let before = count-one q p key k xs {a = a} d h e in
      let after = count-one (λ x. q (f x)) p key k xs {a = a} d h e in
      let move = count-update_move q p f xs in omega arith

  -- An update that takes a test from no row counts no fewer of them.
  pub count-update-ge :
      (q p : A → Bool) (f : A → A) (xs : List A)
      → ((x : A) → p x ≡ true → q x ≡ true → q (f x) ≡ true)
      → count q xs ≤ count q (update_where p f xs)
  count-update-ge q p f [] h = omega arith
  count-update-ge q p f (x ∷ xs) h = ground (arith, h x, count-update-ge q p f xs h)

  pub count-delete_all : (q : A → Bool) (xs : List A) → count q (delete_where q xs) ≡ 0
  count-delete_all q [] = refl
  count-delete_all q (x ∷ xs) = ground (arith, count-delete_all q xs)

  -- A delete of rows that fail a test.
  pub count-delete_other :
      (q p : A → Bool) (xs : List A)
      → ((x : A) → p x ≡ true → q x ≡ false)
      → count q (delete_where p xs) ≡ count q xs
  count-delete_other q p [] h = refl
  count-delete_other q p (x ∷ xs) h = ground (arith, h x, count-delete_other q p xs h)

  -- At most one row has a key.
  pub count-key :
      (key : A → ℕ) (k : ℕ) (xs : List A) → Distinct key xs → count (λ x. key x == k) xs ≤ 1
  count-key key k [] d = omega arith
  count-key key k (x ∷ xs) d = elim (Bool-cases (key x == k)) [
    | inl t ↦
        let rest = absent_count key k (key x) xs ((==_iff (key x) k).0 t) d.0 in
        ground (arith, rest)
    | inr f ↦ ground (arith, count-key key k xs d.1)
  ]
    where
      absent_count :
          (key : A → ℕ) (k n : ℕ) (xs : List A)
          → n ≡ k
          → All (λ y. n ≢ key y) xs
          → count (λ x. key x == k) xs ≡ 0
      absent_count key k n [] e h = refl
      absent_count key k n (x ∷ xs) e h = elim (Bool-cases (key x == k)) [
        | inl t ↦ absurd (h.0 (e ∙ sym ((==_iff (key x) k).0 t)))
        | inr f ↦ ground (arith, absent_count key k n xs e h.1)
      ]
