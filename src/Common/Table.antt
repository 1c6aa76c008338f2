-- ===== src/Common/Table.antt =====
-- A database table as a list of rows, oldest first: `SELECT … WHERE`, `UPDATE … SET … WHERE`,
-- `INSERT` and `DELETE … WHERE`, with what they keep and what they count.
use Prim.Native.Nat.{◌+◌, ◌≤◌}
use mathlib.Core.Path.{◌≡◌, refl}
use mathlib.Core.Logic.{inl, inr}
use mathlib.Core.Bool.{Bool, true, false, not}
use mathlib.Core.Option.{Option, none, some}
use mathlib.Core.List.{List, [], ◌∷◌, ◌++◌}
use native.Mathlib.Omega.{arith}
use convene.Common.Tests.{if◌then◌else◌, Bool-cases}
use convene.Common.Lists.{All, count, length, All-append, count-append}

module _ {ℓ} {A : Type ℓ} where
  abbrev pub select : (A → Bool) → List A → List A
  select p [] = []
  select p (x ∷ xs) = let rest = select p xs in if p x then x ∷ rest else rest

  -- `LIMIT 1`.
  abbrev pub find_first : (A → Bool) → List A → Option A
  find_first p [] = none
  find_first p (x ∷ xs) = let rest = find_first p xs in if p x then some x else rest

  abbrev pub update_where : (A → Bool) → (A → A) → List A → List A
  update_where p f [] = []
  update_where p f (x ∷ xs) = (if p x then f x else x) ∷ update_where p f xs

  abbrev pub insert : A → List A → List A
  insert r xs = xs ++ (r ∷ [])

  abbrev pub delete_where : (A → Bool) → List A → List A
  delete_where p xs = select (λ x. not (p x)) xs

  pub All-false-count : (p : A → Bool) (xs : List A) → All (λ x. p x ≡ false) xs → count p xs ≡ 0
  All-false-count p [] h = refl
  All-false-count p (x ∷ xs) h = ground (arith, All-false-count p xs h.1)

  pub All-select {κ} :
      (P : A → Type κ) (p : A → Bool) (xs : List A) → All P xs → All P (select p xs)
  All-select P p [] h = tt
  All-select P p (x ∷ xs) h = elim (Bool-cases (p x)) [
    | inl t ↦ rw t (h.0, All-select P p xs h.1)
    | inr f ↦ rw f (All-select P p xs h.1)
  ]

  -- Every selected row passes the test.
  pub select-All : (p : A → Bool) (xs : List A) → All (λ x. p x ≡ true) (select p xs)
  select-All p [] = tt
  select-All p (x ∷ xs) = elim (Bool-cases (p x)) [
    | inl t ↦ rw t (t, select-All p xs)
    | inr f ↦ rw f (select-All p xs)
  ]

  pub length-select : (p : A → Bool) (xs : List A) → length (select p xs) ≡ count p xs
  length-select p [] = refl
  length-select p (x ∷ xs) = ground (arith, length-select p xs)

  -- An update keeps what every row has, if it does for the rows that it writes.
  pub All-update {κ} :
      (P : A → Type κ) (p : A → Bool) (f : A → A) (xs : List A)
      → ((x : A) → P x → p x ≡ true → P (f x))
      → All P xs
      → All P (update_where p f xs)
  All-update P p f [] h a = tt
  All-update P p f (x ∷ xs) h a = elim (Bool-cases (p x)) [
    | inl t ↦ rw t (h x a.0 t, All-update P p f xs h a.1)
    | inr e ↦ rw e (a.0, All-update P p f xs h a.1)
  ]

  -- What an update makes of a property of the rows before it.
  pub All-update_to {κ μ} :
      (P : A → Type κ) (Q : A → Type μ) (p : A → Bool) (f : A → A) (xs : List A)
      → ((x : A) → P x → p x ≡ true → Q (f x))
      → ((x : A) → P x → p x ≡ false → Q x)
      → All P xs
      → All Q (update_where p f xs)
  All-update_to P Q p f [] h k a = tt
  All-update_to P Q p f (x ∷ xs) h k a = elim (Bool-cases (p x)) [
    | inl t ↦ rw t (h x a.0 t, All-update_to P Q p f xs h k a.1)
    | inr e ↦ rw e (k x a.0 e, All-update_to P Q p f xs h k a.1)
  ]

  -- After an update every row that it wrote has what the update gives.
  pub update-All {κ} :
      (P : A → Type κ) (p : A → Bool) (f : A → A) (xs : List A)
      → ((x : A) → p x ≡ true → P (f x))
      → ((x : A) → p x ≡ false → P x)
      → All P (update_where p f xs)
  update-All P p f [] h k = tt
  update-All P p f (x ∷ xs) h k = elim (Bool-cases (p x)) [
    | inl t ↦ rw t (h x t, update-All P p f xs h k)
    | inr e ↦ rw e (k x e, update-All P p f xs h k)
  ]

  pub All-insert {κ} : (P : A → Type κ) (r : A) (xs : List A) → All P xs → P r → All P (insert r xs)
  All-insert P r xs h hr = All-append P xs (r ∷ []) h (hr, tt)

  pub count-insert :
      (p : A → Bool) (r : A) (xs : List A)
      → count p (insert r xs) ≡ count p xs + (if p r then 1 else 0)
  count-insert p r xs = omega (arith, count-append p xs (r ∷ []))

  pub count-update :
      (q p : A → Bool) (f : A → A) (xs : List A)
      → count q (update_where p f xs) ≡ count (λ x. q (if p x then f x else x)) xs
  count-update q p f [] = refl
  count-update q p f (x ∷ xs) = omega (arith, count-update q p f xs)

  -- An update that makes no row pass a test counts no more of them.
  pub count-update-le :
      (q p : A → Bool) (f : A → A) (xs : List A)
      → ((x : A) → p x ≡ true → q (f x) ≡ true → q x ≡ true)
      → count q (update_where p f xs) ≤ count q xs
  count-update-le q p f [] h = omega arith
  count-update-le q p f (x ∷ xs) h = ground (arith, h x, count-update-le q p f xs h)

  -- An update that takes the test from every row that it writes, where all that pass are written.
  pub count-update_clear :
      (q p : A → Bool) (f : A → A) (xs : List A)
      → ((x : A) → p x ≡ true → q (f x) ≡ false)
      → ((x : A) → p x ≡ false → q x ≡ false)
      → count q (update_where p f xs) ≡ 0
  count-update_clear q p f [] h k = refl
  count-update_clear q p f (x ∷ xs) h k = ground (arith, h x, k x, count-update_clear q p f xs h k)

  -- An update of rows whose test does not change.
  pub count-update_same :
      (q p : A → Bool) (f : A → A) (xs : List A)
      → ((x : A) → p x ≡ true → q (f x) ≡ q x)
      → count q (update_where p f xs) ≡ count q xs
  count-update_same q p f [] h = refl
  count-update_same q p f (x ∷ xs) h = ground (arith, h x, count-update_same q p f xs h)

  pub length-update :
      (p : A → Bool) (f : A → A) (xs : List A) → length (update_where p f xs) ≡ length xs
  length-update p f [] = refl
  length-update p f (x ∷ xs) = omega (arith, length-update p f xs)

  -- An update that writes nothing changes nothing.
  pub update_none :
      (p : A → Bool) (f : A → A) (xs : List A)
      → All (λ x. p x ≡ false) xs
      → update_where p f xs ≡ xs
  update_none p f [] h = refl
  update_none p f (x ∷ xs) h = ground (arith, update_none p f xs h.1)

  pub select-none : (p : A → Bool) (xs : List A) → All (λ x. p x ≡ false) xs → select p xs ≡ []
  select-none p [] h = refl
  select-none p (x ∷ xs) h = ground (arith, h.0, select-none p xs h.1)

  -- What holds of the rows that pass holds of all that are selected.
  pub All-select_if {κ} :
      (P : A → Type κ) (p : A → Bool) (xs : List A)
      → All (λ x. p x ≡ true → P x) xs
      → All P (select p xs)
  All-select_if P p [] h = tt
  All-select_if P p (x ∷ xs) h = elim (Bool-cases (p x)) [
    | inl t ↦ rw t (h.0 t, All-select_if P p xs h.1)
    | inr f ↦ rw f (All-select_if P p xs h.1)
  ]

  pub select-insert :
      (p : A → Bool) (r : A) (xs : List A)
      → p r ≡ true
      → select p (insert r xs) ≡ insert r (select p xs)
  select-insert p r [] h = rw h refl
  select-insert p r (x ∷ xs) h = ground (arith, select-insert p r xs h)

  -- A test counts the same over the rows that pass a weaker one.
  pub count-select :
      (p q : A → Bool) (xs : List A)
      → ((x : A) → p x ≡ true → q x ≡ true)
      → count p (select q xs) ≡ count p xs
  count-select p q [] h = refl
  count-select p q (x ∷ xs) h = ground (arith, h x, count-select p q xs h)
