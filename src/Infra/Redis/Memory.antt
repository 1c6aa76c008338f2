-- ===== src/Infra/Redis/Memory.antt =====
-- A Redis that keeps its keys in memory, for examples: a store tells the value of a key at a time.
use convene.Common.{
  ℕ, ◌+◌, ◌*◌, ◌<◌, ◌≤◌, ◌≡◌, ◌≢◌, refl, Bool, true, false, Option, none, some, List, [], ◌∷◌,
  arith, ◌==◌, ==_iff, ltb, if◌then◌else◌, inl, inr, Bool-cases,
}
use convene.Infra.Redis.{Redis}

unfoldable pub text_eq : List ℕ → List ℕ → Bool
text_eq [] [] = true
text_eq [] (d ∷ ds) = false
text_eq (c ∷ cs) [] = false
text_eq (c ∷ cs) (d ∷ ds) = let rest = text_eq cs ds in if c == d then rest else false

pub text_eq_refl : (k : List ℕ) → text_eq k k ≡ true
unfolding text_eq
text_eq_refl [] = refl
text_eq_refl (c ∷ cs) = ground (arith, text_eq_refl cs)

pub text_eq_sound : (k j : List ℕ) → text_eq k j ≡ true → k ≡ j
unfolding text_eq
text_eq_sound [] [] e = refl
text_eq_sound [] (d ∷ ds) e = cc
text_eq_sound (c ∷ cs) [] e = cc
text_eq_sound (c ∷ cs) (d ∷ ds) e = elim (Bool-cases (c == d)) [
  | inl t ↦ let head = (==_iff c d).0 t in let tail = text_eq_sound cs ds (ground arith) in cc
  | inr f ↦ absurd (ground arith)
]

pub text_eq_ne : (k j : List ℕ) → k ≢ j → text_eq k j ≡ false
text_eq_ne k j n = elim (Bool-cases (text_eq k j)) [
  | inl t ↦ absurd (n (text_eq_sound k j t))
  | inr f ↦ f
]

module _ {V : Type 0} where
  pub get : (List ℕ → ℕ → Option V) → List ℕ → ℕ → Option V
  get s k t = s k t

  pub set_ex : (List ℕ → ℕ → Option V) → List ℕ → V → ℕ → ℕ → List ℕ → ℕ → Option V
  set_ex s k v seconds now j t =
      if text_eq k j then (if ltb t (now + seconds * 1000) then some v else none) else s j t

  pub del : (List ℕ → ℕ → Option V) → List ℕ → List ℕ → ℕ → Option V
  del s k j t = if text_eq k j then none else s j t

  pub get-set_ex :
      (s : List ℕ → ℕ → Option V) (k : List ℕ) (v : V) (seconds now t : ℕ)
      → t < now + seconds * 1000
      → get (set_ex s k v seconds now) k t ≡ some v
  unfolding get set_ex
  get-set_ex s k v seconds now t l = ground (arith, text_eq_refl k)

  pub get-set_ex_expired :
      (s : List ℕ → ℕ → Option V) (k : List ℕ) (v : V) (seconds now t : ℕ)
      → now + seconds * 1000 ≤ t
      → get (set_ex s k v seconds now) k t ≡ none
  unfolding get set_ex
  get-set_ex_expired s k v seconds now t l = ground (arith, text_eq_refl k)

  pub get-set_ex_ne :
      (s : List ℕ → ℕ → Option V) (k j : List ℕ) (v : V) (seconds now t : ℕ)
      → k ≢ j
      → get (set_ex s k v seconds now) j t ≡ get s j t
  unfolding get set_ex
  get-set_ex_ne s k j v seconds now t n = ground (arith, text_eq_ne k j n)

  pub get-del : (s : List ℕ → ℕ → Option V) (k : List ℕ) (t : ℕ) → get (del s k) k t ≡ none
  unfolding get del
  get-del s k t = ground (arith, text_eq_refl k)

  pub get-del_ne :
      (s : List ℕ → ℕ → Option V) (k j : List ℕ) (t : ℕ) → k ≢ j → get (del s k) j t ≡ get s j t
  unfolding get del
  get-del_ne s k j t n = ground (arith, text_eq_ne k j n)

  unfoldable pub memory : Redis V
  unfolding get set_ex del
  memory = record {
    Store = List ℕ → ℕ → Option V;
    get = get;
    set_ex = set_ex;
    del = del;
    get-set_ex = get-set_ex;
    get-set_ex_expired = get-set_ex_expired;
    get-set_ex_ne = get-set_ex_ne;
    get-del = get-del;
    get-del_ne = get-del_ne;
  }

-- The store without a key.
unfoldable pub fresh : (V : Type 0) → Redis.Store (memory {V = V})
unfolding memory
fresh V k t = none
