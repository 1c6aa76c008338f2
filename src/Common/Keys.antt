-- ===== src/Common/Keys.antt =====
-- Tables whose rows are told apart by a column, such as a primary key.
use Prim.Native.Nat.{ℕ, ◌+◌}
use mathlib.Core.Path.{◌≡◌, refl, sym, subst, ◌∙◌}
use mathlib.Core.Logic.{◌≢◌, inl, inr}
use mathlib.Core.Bool.{Bool, true, false}
use mathlib.Core.Option.{some}
use mathlib.Core.List.{List, [], ◌∷◌}
use native.Mathlib.Omega.{arith}
use convene.Common.Tests.{if◌then◌else◌, ◌==◌, ==_iff, ==_refl, Bool-cases}
use convene.Common.Lists.{All, All-imp, count}
use convene.Common.Found.{find_first-All}
use convene.Common.Table.{find_first, update_where, update_none, insert, All-insert, All-update}

-- A column without two equal values, such as a primary key.
module _ {ℓ} {A : Type ℓ} where
  abbrev pub Distinct : (A → ℕ) → List A → Type 0
  Distinct key [] = Unit
  Distinct key (x ∷ xs) = All (λ y. key x ≢ key y) xs × Distinct key xs

  absent :
      (P : A → Type ℓ) (key : A → ℕ) (k n : ℕ) (xs : List A)
      → n ≡ k
      → All (λ y. n ≢ key y) xs
      → All (λ x. (key x == k) ≡ true → P x) xs
  absent P key k n [] e h = tt
  absent P key k n (x ∷ xs) e h =
      ((λ t. absurd (h.0 (e ∙ sym ((==_iff (key x) k).0 t)))), absent P key k n xs e h.1)

  -- The row that a key finds is the only one with that key.
  pub find_first_unique :
      (key : A → ℕ) (k : ℕ) (xs : List A) {a : A}
      → Distinct key xs
      → find_first (λ x. key x == k) xs ≡ some a
      → All (λ x. (key x == k) ≡ true → x ≡ a) xs
  find_first_unique key k [] d e = tt
  find_first_unique key k (x ∷ xs) {a} d e = elim (Bool-cases (key x == k)) [
    | inl t ↦
        ((λ _. ground arith), absent (λ y. y ≡ a) key k (key x) xs ((==_iff (key x) k).0 t) d.0)
    | inr f ↦ ((λ t. cc), find_first_unique key k xs d.1 (ground arith))
  ]

  pub Distinct-update :
      (key : A → ℕ) (p : A → Bool) (f : A → A) (xs : List A)
      → ((x : A) → key (f x) ≡ key x)
      → Distinct key xs
      → Distinct key (update_where p f xs)
  Distinct-update key p f [] h d = tt
  Distinct-update key p f (x ∷ xs) h d = (
    All-update (λ y. key (if p x then f x else x) ≢ key y) p f xs (λ y n _ e. n (e ∙ h y))
        (All-imp _ _ xs (λ y n e. n (sym (same (p x)) ∙ e)) d.0),
    Distinct-update key p f xs h d.1,
  )
    where
      same : (b : Bool) → key (if b then f x else x) ≡ key x
      same true = h x
      same false = refl

  pub Distinct-insert :
      (key : A → ℕ) (r : A) (xs : List A)
      → Distinct key xs
      → All (λ x. key x ≢ key r) xs
      → Distinct key (insert r xs)
  Distinct-insert key r [] d h = (tt, tt)
  Distinct-insert key r (x ∷ xs) d h =
      (All-insert (λ y. key x ≢ key y) r xs d.0 h.0, Distinct-insert key r xs d.1 h.1)

  -- `All-update` at the one row that a key finds.
  pub All-update_found {κ} :
      (P : A → Type κ) (key : A → ℕ) (k : ℕ) (f : A → A) (xs : List A) {a : A}
      → Distinct key xs
      → find_first (λ x. key x == k) xs ≡ some a
      → (P a → P (f a))
      → All P xs
      → All P (update_where (λ x. key x == k) f xs)
  All-update_found P key k f xs {a} d e step h = go xs (find_first_unique key k xs d e) h
    where
      go :
          (ys : List A)
          → All (λ x. (key x == k) ≡ true → x ≡ a) ys
          → All P ys
          → All P (update_where (λ x. key x == k) f ys)
      go [] u h = tt
      go (y ∷ ys) u h = elim (Bool-cases (key y == k)) [
        | inl t ↦
            rw t (subst (λ z. P (f z)) (sym (u.0 t)) (step (subst P (u.0 t) h.0)), go ys u.1 h.1)
        | inr n ↦ rw n (h.0, go ys u.1 h.1)
      ]

  -- The row that a key finds, after an update of that row.
  pub find_first-update :
      (key : A → ℕ) (k : ℕ) (f : A → A) (xs : List A) {a : A}
      → ((x : A) → key (f x) ≡ key x)
      → find_first (λ x. key x == k) xs ≡ some a
      → find_first (λ x. key x == k) (update_where (λ x. key x == k) f xs) ≡ some (f a)
  find_first-update key k f [] h e = cc
  find_first-update key k f (x ∷ xs) {a} h e = elim (Bool-cases (key x == k)) [
    | inl t ↦ ground (arith, h x)
    | inr n ↦ ground (arith, find_first-update key k f xs {a = a} h)
  ]

  pub find_first-insert :
      (p : A → Bool) (r : A) (xs : List A) {a : A}
      → find_first p xs ≡ some a
      → find_first p (insert r xs) ≡ some a
  find_first-insert p r [] e = cc
  find_first-insert p r (x ∷ xs) {a} e = ground (arith, find_first-insert p r xs {a = a})

  -- A fresh row is found by its own key.
  pub find_first-insert_self :
      (key : A → ℕ) (r : A) (xs : List A)
      → All (λ x. key x ≢ key r) xs
      → find_first (λ x. key x == key r) (insert r xs) ≡ some r
  find_first-insert_self key r [] h = ground (arith, ==_refl (key r))
  find_first-insert_self key r (x ∷ xs) h = ground (arith, h.0, find_first-insert_self key r xs h.1)

  absent_false :
      (key : A → ℕ) (k n : ℕ) (xs : List A)
      → n ≡ k
      → All (λ y. n ≢ key y) xs
      → All (λ x. (key x == k) ≡ false) xs
  absent_false key k n [] e h = tt
  absent_false key k n (x ∷ xs) e h = elim (Bool-cases (key x == k)) [
    | inl t ↦ absurd (h.0 (e ∙ sym ((==_iff (key x) k).0 t)))
    | inr f ↦ (f, absent_false key k n xs e h.1)
  ]

  -- An update of the row that a key finds, which takes it out of a count.
  pub count-update_found :
      (q : A → Bool) (key : A → ℕ) (k : ℕ) (f : A → A) (xs : List A) {a : A}
      → Distinct key xs
      → find_first (λ x. key x == k) xs ≡ some a
      → q a ≡ true
      → q (f a) ≡ false
      → count q (update_where (λ x. key x == k) f xs) + 1 ≡ count q xs
  count-update_found q key k f [] d e t u = cc
  count-update_found q key k f (x ∷ xs) {a} d e t u = elim (Bool-cases (key x == k)) [
    | inl hit ↦
        let rest =
          update_none (λ y. key y == k) f xs
            (absent_false key k (key x) xs ((==_iff (key x) k).0 hit) d.0) in
        let same : x ≡ a = ground arith in
        let before = subst (λ z. q z ≡ true) (sym same) t in
        let after = subst (λ z. q (f z) ≡ false) (sym same) u in
        rw (hit, rest) (rw (before, after) (omega arith))
    | inr miss ↦ ground (arith, count-update_found q key k f xs {a = a} d.1)
  ]

  -- A row that any query finds is found by its key.
  pub find_first-by_key :
      (key : A → ℕ) (p : A → Bool) (xs : List A) {a : A}
      → Distinct key xs
      → find_first p xs ≡ some a
      → find_first (λ x. key x == key a) xs ≡ some a
  find_first-by_key key p [] d e = cc
  find_first-by_key key p (x ∷ xs) {a} d e = elim (Bool-cases (p x)) [
    | inl t ↦ let same : x ≡ a = ground arith in rw (sym same) (rw (==_refl (key x)) refl)
    | inr f ↦
        let rest = find_first-by_key key p xs {a = a} d.1 (ground arith) in
        let other = find_first-All (λ y. key x ≢ key y) p xs {a = a} d.0 (ground arith) in
        ground (arith, other, rest)
  ]

  -- An update of the row that a key finds, which leaves it in or out of a count.
  pub count-update_found_same :
      (q : A → Bool) (key : A → ℕ) (k : ℕ) (f : A → A) (xs : List A) {a : A}
      → Distinct key xs
      → find_first (λ x. key x == k) xs ≡ some a
      → q (f a) ≡ q a
      → count q (update_where (λ x. key x == k) f xs) ≡ count q xs
  count-update_found_same q key k f [] d e t = cc
  count-update_found_same q key k f (x ∷ xs) {a} d e t = elim (Bool-cases (key x == k)) [
    | inl hit ↦
        let rest =
          update_none (λ y. key y == k) f xs
            (absent_false key k (key x) xs ((==_iff (key x) k).0 hit) d.0) in
        let same : x ≡ a = ground arith in
        let kept = subst (λ z. q (f z) ≡ q z) (sym same) t in rw (hit, rest) (rw kept refl)
    | inr miss ↦ ground (arith, count-update_found_same q key k f xs {a = a} d.1)
  ]
