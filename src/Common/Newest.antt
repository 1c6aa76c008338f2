-- ===== src/Common/Newest.antt =====
-- `ORDER BY key DESC LIMIT 1` and `ORDER BY key LIMIT 1`: what the row found has to do with the others.
use Prim.Native.Nat.{ℕ, ◌≤◌}
use mathlib.Core.Path.{◌≡◌, refl, ap, subst}
use mathlib.Core.Bool.{Bool}
use mathlib.Core.Logic.{inl, inr}
use mathlib.Core.Option
use mathlib.Core.Option.{Option, none, some, some-injective}
use mathlib.Core.List.{List, [], ◌∷◌}
use native.Mathlib.Omega.{arith}
use convene.Common.Tests.{if◌then◌else◌, ltb, leb, Bool-cases, Option-cases}
use convene.Common.Lists.{All, All-imp}
use convene.Common.Table.{insert, select, update_where}

module _ {ℓ} {A : Type ℓ} where
  -- `ORDER BY key DESC LIMIT 1`; of two rows with one key, the row inserted later.
  abbrev pub newer : (A → ℕ) → A → Option A → A
  newer key x none = x
  newer key x (some y) = if leb (key x) (key y) then y else x

  abbrev pub newest : (A → ℕ) → List A → Option A
  newest key [] = none
  newest key (x ∷ xs) = some (newer key x (newest key xs))

  newer-has {κ} :
      (P : A → Type κ) (key : A → ℕ) (x : A) (o : Option A)
      → P x
      → ((y : A) → o ≡ some y → P y)
      → P (newer key x o)
  newer-has P key x none h k = h
  newer-has P key x (some y) h k = elim (Bool-cases (leb (key x) (key y))) [
    | inl t ↦ rw t (k y refl)
    | inr f ↦ rw f h
  ]

  pub newest-All {κ} :
      (P : A → Type κ) (key : A → ℕ) (xs : List A) {a : A} → All P xs → newest key xs ≡ some a → P a
  newest-All P key [] h e = cc
  newest-All P key (x ∷ xs) h e =
      subst P (some-injective _ _ e)
        (newer-has P key x (newest key xs) h.0 (λ y q. newest-All P key xs h.1 q))

module _ {ℓ} {A : Type ℓ} (key : A → ℕ) where
  abbrev older : A → Option A → A
  older x none = x
  older x (some y) = if ltb (key y) (key x) then y else x

  -- Of two rows with one key, the row inserted first.
  abbrev pub oldest : List A → Option A
  oldest [] = none
  oldest (x ∷ xs) = some (older x (oldest xs))

  pub newest-none : (xs : List A) → newest key xs ≡ none → xs ≡ []
  newest-none [] e = refl
  newest-none (x ∷ xs) e = cc

  pub newest-max : (xs : List A) {a : A} → newest key xs ≡ some a → All (λ x. key x ≤ key a) xs
  newest-max [] e = tt
  newest-max (x ∷ xs) {a} e = elim (Option-cases (newest key xs)) [
    | inl n ↦ (ground arith, rw (newest-none xs n) tt)
    | inr (b, f) ↦
        let rest = newest-max xs {a = b} f in
        (ground arith, All-imp (λ x. key x ≤ key b) _ xs (λ x h. ground arith) rest)
  ]

  pub newest-insert :
      (r : A) (xs : List A) → All (λ x. key x ≤ key r) xs → newest key (insert r xs) ≡ some r
  newest-insert r [] h = refl
  newest-insert r (x ∷ xs) h = rw (newest-insert r xs h.1) (ground (arith, h.0))

  newer-map :
      (u : A → A) (x : A) (o : Option A)
      → ((x : A) → key (u x) ≡ key x)
      → newer key (u x) (Option.map u o) ≡ u (newer key x o)
  newer-map u x none k = refl
  newer-map u x (some y) k = elim (Bool-cases (leb (key x) (key y))) [
    | inl t ↦ rw (k x, k y, t) refl
    | inr t ↦ rw (k x, k y, t) refl
  ]

  -- An update that changes neither the test of a query nor the key.
  pub newest-update :
      (q p : A → Bool) (f : A → A) (xs : List A)
      → ((x : A) → q (if p x then f x else x) ≡ q x)
      → ((x : A) → key (if p x then f x else x) ≡ key x)
      → newest key (select q (update_where p f xs))
        ≡ Option.map (λ x. if p x then f x else x) (newest key (select q xs))
  newest-update q p f [] h k = refl
  newest-update q p f (x ∷ xs) h k = elim (Bool-cases (q x)) [
    | inl t ↦
        rw (h x, t, newest-update q p f xs h k)
          (ap some (newer-map (λ x. if p x then f x else x) x (newest key (select q xs)) k))
    | inr t ↦ rw (h x, t) (newest-update q p f xs h k)
  ]
