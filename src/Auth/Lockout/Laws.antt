-- ===== src/Auth/Lockout/Laws.antt =====
-- The lockout over any sequence of failures (login-lockout.service.ts).
use convene.Common.{
  ℕ, zero, suc, ◌+◌, ◌-◌, min, ◌*◌, ◌≤◌, ◌<◌, ◌≡◌, ◌≢◌, refl, ap, ◌∙◌, false, ◌&&◌, none, some,
  List, [], ◌∷◌, arith, leb, ltb, length, All, ceil_seconds, or_else, if◌then◌else◌,
}
use convene.Infra.Keys.{colon, login_lockout_key-injective}
use convene.Infra.Redis.{Redis}
use convene.Auth.Lockout.{
  LockoutState, initial, lockout_stages_seconds, stage_seconds, failed, lockout_threshold,
  state_ttl_seconds, read_state, check, record_failure, reset, status_at, get_or, unlocked,
}

-- The state that n failures leave, the last of them at the given time.
abbrev pub after_failures : ℕ → ℕ → LockoutState
after_failures n last = record {
  failures = n;
  locked_until = if leb lockout_threshold n then some (last + stage_seconds n * 1000) else none;
}

failed-after_failures :
    (n last now : ℕ) → failed (after_failures n last) now ≡ after_failures (n + 1) now
unfolding failed
failed-after_failures n last now = ground arith

-- The last of a failure and those after it.
abbrev pub last_of : ℕ → List ℕ → ℕ
last_of t [] = t
last_of t (u ∷ us) = last_of u us

-- Each failure comes less than a day after the one before.
abbrev pub WithinDay : ℕ → List ℕ → Type 0
WithinDay t [] = Unit {0}
WithinDay t (u ∷ us) = (u < t + state_ttl_seconds * 1000) × WithinDay u us

get_or-le : (xs : List ℕ) (i d m : ℕ) → All (λ x. x ≤ m) xs → d ≤ m → get_or xs i d ≤ m
unfolding get_or
get_or-le [] i d m h k = k
get_or-le (x ∷ xs) zero d m h k = h.0
get_or-le (x ∷ xs) (suc i) d m h k = get_or-le xs i d m h.1 k

stage_seconds-le : (n : ℕ) → stage_seconds n ≤ 3600
unfolding stage_seconds
stage_seconds-le n =
    get_or-le lockout_stages_seconds (min (n - lockout_threshold) 4) 0 3600
      (omega arith, (omega arith, (omega arith, (omega arith, (omega arith, tt))))) (omega arith)

module _ (redis : Redis LockoutState) where
  open redis use {Store, get, set_ex, del, get-set_ex, get-set_ex_ne, get-del, get-del_ne}

  pub record_failures : Store → List ℕ → List ℕ → List ℕ → Store
  record_failures s identifier ip [] = s
  record_failures s identifier ip (t ∷ ts) =
      record_failures (record_failure redis s identifier ip t).0 identifier ip ts

  read-record_failure :
      (s : Store) (identifier ip : List ℕ) (t now : ℕ)
      → now < t + state_ttl_seconds * 1000
      → read_state redis (record_failure redis s identifier ip t).0 identifier ip now
        ≡ failed (read_state redis s identifier ip t) t
  unfolding record_failure read_state
  read-record_failure s identifier ip t now l =
      ap (λ o. or_else o initial) (get-set_ex s _ _ state_ttl_seconds t now l)

  record_failures-state :
      (s : Store) (identifier ip : List ℕ) (n before t : ℕ) (ts : List ℕ) (now : ℕ)
      → read_state redis s identifier ip t ≡ after_failures n before
      → WithinDay t ts
      → now < last_of t ts + state_ttl_seconds * 1000
      → read_state redis (record_failures s identifier ip (t ∷ ts)) identifier ip now
        ≡ after_failures (n + length (t ∷ ts)) (last_of t ts)
  unfolding record_failures
  record_failures-state s identifier ip n before t [] now h w l =
      read-record_failure s identifier ip t now l
      ∙ ap (λ st. failed st t) h
      ∙ failed-after_failures n before t
  record_failures-state s identifier ip n before t (u ∷ us) now h w l =
      let next =
        read-record_failure s identifier ip t u w.0
        ∙ ap (λ st. failed st t) h
        ∙ failed-after_failures n before t in
      let rest =
        record_failures-state (record_failure redis s identifier ip t).0 identifier ip (n + 1) t u
          us now next w.1 l in
      let total : n + 1 + length (u ∷ us) ≡ n + length (t ∷ u ∷ us) = omega arith in
      rest ∙ ap (λ m. after_failures m (last_of u us)) total

  -- After any failures of a pair, the first with no earlier one on record and each less than a day
  -- after the one before, the pair is locked within a day of the last failure exactly when there
  -- are at least five of them and the stage that their number brings is not over; and it then
  -- waits for the rest of the stage, which is an hour at most.
  pub check-record_failures :
      (s : Store) (identifier ip : List ℕ) (t : ℕ) (ts : List ℕ) (now : ℕ)
      → read_state redis s identifier ip t ≡ initial
      → WithinDay t ts
      → last_of t ts ≤ now
      → now < last_of t ts + state_ttl_seconds * 1000
      → let n = length (t ∷ ts) in
        let until = last_of t ts + stage_seconds n * 1000 in
        let status = check redis (record_failures s identifier ip (t ∷ ts)) identifier ip now in
        (status.locked ≡ (leb lockout_threshold n && ltb now until))
        × (status.retry_after_seconds ≡ (if status.locked then ceil_seconds (until - now) else 0))
        × (status.retry_after_seconds ≤ 3600)
  unfolding check status_at unlocked
  check-record_failures s identifier ip t ts now h w k l =
      let state = record_failures-state s identifier ip 0 0 t ts now h w l in
      let hour = stage_seconds-le (length (t ∷ ts)) in rw state (ground (arith, hour))

  check-record_failure_other :
      (s : Store) (a x b y : List ℕ) (t now : ℕ)
      → All (λ c. c ≢ colon) a
      → All (λ c. c ≢ colon) b
      → ((a ≡ b) × (x ≡ y) → ⊥)
      → check redis (record_failure redis s a x t).0 b y now ≡ check redis s b y now
  unfolding check record_failure read_state
  check-record_failure_other s a x b y t now h k ne =
      ap (λ o. status_at (or_else o initial).locked_until now)
        (get-set_ex_ne s _ _ _ state_ttl_seconds t now
          (λ e. ne (login_lockout_key-injective a b x y h k e)))

  -- Failures of one pair do not count for another: whatever pair of an identifier without a colon
  -- and an address differs from the one that fails keeps its status.
  pub check-record_failures_other :
      (s : Store) (a x b y ts : List ℕ) (now : ℕ)
      → All (λ c. c ≢ colon) a
      → All (λ c. c ≢ colon) b
      → ((a ≡ b) × (x ≡ y) → ⊥)
      → check redis (record_failures s a x ts) b y now ≡ check redis s b y now
  unfolding record_failures
  check-record_failures_other s a x b y [] now h k ne = refl
  check-record_failures_other s a x b y (t ∷ ts) now h k ne =
      check-record_failures_other (record_failure redis s a x t).0 a x b y ts now h k ne
      ∙ check-record_failure_other s a x b y t now h k ne

  -- A reset takes the lock and every counted failure from the pair.
  read-reset :
      (s : Store) (identifier ip : List ℕ) (now : ℕ)
      → read_state redis (reset redis s identifier ip) identifier ip now ≡ initial
  unfolding read_state reset
  read-reset s identifier ip now = ap (λ o. or_else o initial) (get-del s _ now)

  -- After a successful sign-in resets a pair, four more failures, each less than a day after the
  -- one before, lock it at no time within a day of the last of them.
  pub reset-record_failures :
      (s : Store) (identifier ip : List ℕ) (t : ℕ) (ts : List ℕ) (now : ℕ)
      → length ts ≤ 3
      → WithinDay t ts
      → last_of t ts ≤ now
      → now < last_of t ts + state_ttl_seconds * 1000
      → (check redis
          (record_failures (reset redis s identifier ip) identifier ip (t ∷ ts))
          identifier
          ip
          now).locked
        ≡ false
  reset-record_failures s identifier ip t ts now few w k l =
      let status =
        check-record_failures (reset redis s identifier ip) identifier ip t ts now
          (read-reset s identifier ip t) w k l in
      let small : leb lockout_threshold (length (t ∷ ts)) ≡ false = ground arith in
      status.0
      ∙ ap (λ b. b && ltb now (last_of t ts + stage_seconds (length (t ∷ ts)) * 1000)) small
