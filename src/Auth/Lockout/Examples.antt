-- ===== src/Auth/Lockout/Examples.antt =====
-- A pair that fails five times in a minute.
use convene.Common.{
  ℕ, ◌+◌, ◌*◌, ◌-◌, ◌≡◌, ◌≤◌, refl, false, ◌&&◌, List, [], ◌∷◌, arith, leb, ltb, ceil_seconds,
  if◌then◌else◌,
}
use convene.Infra.Keys.{codes}
use convene.Infra.Redis.{Redis}
use convene.Infra.Redis.Memory.{memory, fresh}
use convene.Auth.Lockout.{
  LockoutState, read_state, check, reset, stage_seconds, lockout_threshold, initial,
}
use convene.Auth.Lockout.Laws.{
  record_failures, check-record_failures, check-record_failures_other, reset-record_failures,
}

abbrev empty : Redis.Store (memory {V = LockoutState})
empty = fresh LockoutState

abbrev who : List ℕ
who = codes "a"

abbrev here : List ℕ
here = codes "10.0.0.1"

abbrev there : List ℕ
there = codes "10.0.0.2"

abbrev later : List ℕ
later = 1000 ∷ 2000 ∷ 3000 ∷ 4000 ∷ []

nothing_read : read_state memory empty who here 0 ≡ initial
unfolding read_state memory fresh
nothing_read = refl

check-record_failures_example :
    let until = 4000 + stage_seconds 5 * 1000 in
    let status = check memory (record_failures memory empty who here (0 ∷ later)) who here 5000 in
    (status.locked ≡ (leb lockout_threshold 5 && ltb 5000 until))
    × (status.retry_after_seconds ≡ (if status.locked then ceil_seconds (until - 5000) else 0))
    × (status.retry_after_seconds ≤ 3600)
check-record_failures_example =
    check-record_failures memory empty who here 0 later 5000 nothing_read
      (omega arith, (omega arith, (omega arith, (omega arith, tt)))) (omega arith) (omega arith)

check-record_failures_other_example :
    check memory (record_failures memory empty who here later) who there 5000
    ≡ check memory empty who there 5000
check-record_failures_other_example =
    check-record_failures_other memory empty who here who there later 5000 (ground arith, tt)
      (ground arith, tt) (λ e. ground arith)

reset-record_failures_example :
    (check memory
      (record_failures memory (reset memory empty who here) who here (0 ∷ 1000 ∷ 2000 ∷ 3000 ∷ []))
      who
      here
      4000).locked
    ≡ false
reset-record_failures_example =
    reset-record_failures memory empty who here 0 (1000 ∷ 2000 ∷ 3000 ∷ []) 4000 (omega arith)
      (omega arith, (omega arith, (omega arith, tt))) (omega arith) (omega arith)
