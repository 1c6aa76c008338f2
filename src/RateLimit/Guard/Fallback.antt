-- ===== src/RateLimit/Guard/Fallback.antt =====
-- What a process admits while Redis does not answer.
use convene.Common.{
  ℕ, ◌+◌, ◌≤◌, ◌≡◌, refl, List, [], ◌∷◌, arith, ltb, count, count-insert, length-select, select,
  Bool-cases, inl, inr,
}
use convene.Infra.Redis.Memory.{text_eq_refl}
use convene.RateLimit.{RateLimitPolicy}
use convene.RateLimit.Log.{is_recent, recent, admits, admit}
use convene.RateLimit.Guard.{Log, check_in_process, fallback_limit}

count-select_weaker :
    (window now u : ℕ) (xs : List ℕ)
    → now ≤ u
    → count (is_recent window u) (select (λ t. ltb now (t + window)) xs)
      ≡ count (is_recent window u) xs
count-select_weaker window now u [] le = refl
count-select_weaker window now u (x ∷ xs) le =
    ground (arith, count-select_weaker window now u xs le)

module _ (key : List ℕ) (policy : RateLimitPolicy) (window : ℕ) where
  -- What of the admitted times the process still holds for the key.
  abbrev pub Holds : ℕ → Log → List ℕ → Type 0
  Holds last log times = (u : ℕ) → last ≤ u → recent window u (log key) ≡ recent window u times

  pub check_in_process-Holds :
      (last now : ℕ) (log : Log) (times : List ℕ)
      → last ≤ now
      → Holds last log times
      → let (answer, log') = check_in_process key now window policy log in
        (answer.allowed ≡ admits (fallback_limit policy.limit) window now times)
        × Holds now log' (admit (fallback_limit policy.limit) window now times)
  unfolding check_in_process admit
  check_in_process-Holds last now log times le h =
      let total = length-select (is_recent window now) (log key) in
      let same = text_eq_refl key in
      let here = h now le in
      elim (Bool-cases (ltb (recent window now times) (fallback_limit policy.limit))) [
        | inl t ↦ (
          ground (arith, total, here),
          λ u a. ground (
            arith,
            total,
            here,
            same,
            h u,
            count-select_weaker window now u (log key),
            count-insert (is_recent window u) now times,
            count-insert (is_recent window u) now (select (λ t. ltb now (t + window)) (log key)),
          ),
        )
        | inr f ↦ (
          ground (arith, total, here),
          λ u a. ground (arith, total, here, same, h u, count-select_weaker window now u (log key)),
        )
      ]
