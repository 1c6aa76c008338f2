-- ===== src/RateLimit/Log.antt =====
-- The specification of a rate limit: the log of all times at which an attempt was admitted. An attempt
-- is admitted when fewer than `limit` of them lie in the window that ends now. The window is open at
-- its start: a time `x` has left it when `x + window ≤ now`.
use convene.Common.{
  ℕ, ◌+◌, ◌≤◌, ◌≡◌, Bool, true, ◌&&◌, List, [], ◌∷◌, arith, ltb, leb, if◌then◌else◌, All, All-imp,
  All-insert, count, count-imp, count-insert, insert, Bool-cases, inl, inr,
}

abbrev pub is_recent : ℕ → ℕ → ℕ → Bool
is_recent window now x = ltb now (x + window)

abbrev pub recent : ℕ → ℕ → List ℕ → ℕ
recent window now log = count (is_recent window now) log

abbrev pub admits : ℕ → ℕ → ℕ → List ℕ → Bool
admits limit window now log = ltb (recent window now log) limit

unfoldable pub admit : ℕ → ℕ → ℕ → List ℕ → List ℕ
admit limit window now log = if admits limit window now log then insert now log else log

abbrev pub Past : ℕ → List ℕ → Type 0
Past now log = All (λ x. x ≤ now) log

-- How many admitted times lie in the window that opens after `start`.
abbrev pub inside : ℕ → ℕ → ℕ → Bool
inside window start x = ltb start x && leb x (start + window)

-- In every window of the given length at most `limit` attempts were admitted.
abbrev pub IsLimited : ℕ → ℕ → List ℕ → Type 0
IsLimited limit window log = (start : ℕ) → count (inside window start) log ≤ limit

pub admit-Past :
    (limit window last now : ℕ) (log : List ℕ)
    → last ≤ now
    → Past last log
    → Past now (admit limit window now log)
unfolding admit
admit-Past limit window last now log le past =
    let old : Past now log = All-imp _ _ log (λ x h. omega arith) past in
    elim (Bool-cases (admits limit window now log)) [
      | inl t ↦ rw t (All-insert _ now log old (omega arith))
      | inr f ↦ rw f old
    ]

inside-recent :
    (window start now : ℕ) (log : List ℕ)
    → now ≤ start + window
    → count (inside window start) log ≤ recent window now log
inside-recent window start now log le =
    count-imp (inside window start) (is_recent window now) log (each log)
  where
    each :
        (xs : List ℕ) → All (λ x. inside window start x ≡ true → is_recent window now x ≡ true) xs
    each [] = tt
    each (x ∷ xs) = ((λ h. ground arith), each xs)

pub admit-IsLimited :
    (limit window now : ℕ) (log : List ℕ)
    → IsLimited limit window log
    → IsLimited limit window (admit limit window now log)
unfolding admit
admit-IsLimited limit window now log h start = elim (Bool-cases (admits limit window now log)) [
  | inr f ↦ rw f (h start)
  | inl t ↦ rw t (
      ground (
        arith,
        count-insert (inside window start) now log,
        inside-recent window start now log,
        h start,
      ))
]

-- The answers of the log to attempts at these times.
unfoldable pub admissions : ℕ → ℕ → List ℕ → List ℕ → List Bool
admissions limit window [] log = []
admissions limit window (now ∷ rest) log =
    admits limit window now log ∷ admissions limit window rest (admit limit window now log)
