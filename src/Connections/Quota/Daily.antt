-- ===== src/Connections/Quota/Daily.antt =====
-- The daily quota over any sequence of checks.
use convene.Common.{
  ℕ, ◌+◌, ◌≤◌, ◌<◌, ◌≡◌, refl, ◌∙◌, min, true, none, some, List, [], ◌∷◌, ◌++◌, arith, ltb, All,
  if◌then◌else◌, length,
}
use convene.Infra.Redis.Counters.{Counters}
use convene.Infra.Keys.{connection_request_daily_quota_key}
use convene.Connections.Quota.{
  ConnectionPlan, free, premium, pro, daily_limits, check_daily_quota, check_key, ms_until_midnight,
}

module _ (c : Counters) (limit : ℕ) (key : List ℕ) where
  open c use {
    Store, lookup, incr, decr, pexpire, lookup-incr, lookup-decr, lookup-pexpire, lookup_later,
  }

  -- How many of the checks at these times were allowed, and the store after them.
  unfoldable pub granted : List ℕ → Store → ℕ
  granted [] s = 0
  granted (now ∷ rest) s =
      let (quota, s') = check_key c limit key now s in
      (if quota.allowed then 1 else 0) + granted rest s'

  unfoldable pub after : List ℕ → Store → Store
  after [] s = s
  after (now ∷ rest) s = after rest (check_key c limit key now s).1

  -- Times in order, from `last` on and before `end`.
  abbrev pub IsWithin : ℕ → ℕ → List ℕ → Type 0
  IsWithin last end [] = Unit
  IsWithin last end (now ∷ rest) = (last ≤ now) × (now < end) × IsWithin now end rest

  abbrev Counts : ℕ → ℕ → ℕ → Store → Type 0
  Counts now used end s = lookup s key now ≡ some (record { value = used; expires_at = some end })

  first_check :
      (now : ℕ) (s : Store)
      → 1 ≤ limit
      → lookup s key now ≡ none
      → ((check_key c limit key now s).0.allowed ≡ true)
        × Counts now 1 (now + ms_until_midnight now) (check_key c limit key now s).1
  unfolding check_key
  first_check now s h e =
      let made : lookup (incr s key now) key now ≡ some (record { value = 1; expires_at = none }) =
        ground (arith, lookup-incr s key now) in
      let kept =
        lookup-pexpire (incr s key now) key (ms_until_midnight now) now _ made (omega arith) in
      (ground (arith, made), ground (arith, made, kept))

  next_check :
      (last now used end : ℕ) (s : Store)
      → 1 ≤ used
      → used ≤ limit
      → last ≤ now
      → now < end
      → Counts last used end s
      → ((check_key c limit key now s).0.allowed ≡ ltb used limit)
        × Counts now (if ltb used limit then used + 1 else used) end (check_key c limit key now s).1
  unfolding check_key
  next_check last now used end s pos le a b e =
      let here : Counts now used end s = ground (arith, lookup_later s key last now a) in
      let made : Counts now (used + 1) end (incr s key now) =
        ground (arith, lookup-incr s key now) in
      let back = lookup-decr (incr s key now) key now in
      (ground (arith, made), ground (arith, made, back))

  granted-next :
      (last used end : ℕ) (times : List ℕ) (s : Store)
      → 1 ≤ used
      → used ≤ limit
      → last < end
      → IsWithin last end times
      → Counts last used end s
      → (used + granted times s ≡ min (used + length times) limit)
        × ((now : ℕ) → end ≤ now → lookup (after times s) key now ≡ none)
  unfolding granted after
  granted-next last used end [] s pos le lt w e =
      (ground arith, λ now a. ground (arith, lookup_later s key last now))
  granted-next last used end (now ∷ rest) s pos le lt w e =
      let step = next_check last now used end s pos le w.0 w.1 e in
      let (sum, over) =
        granted-next now (if ltb used limit then used + 1 else used) end rest
          (check_key c limit key now s).1 (ground arith) (ground arith) w.1 w.2 step.1 in
      (ground (arith, step.0, sum), over)

  -- From a key that is not there, the first checks until it expires are allowed up to the limit, and
  -- none after; at its end the key is gone.
  granted-first :
      (now : ℕ) (rest : List ℕ) (s : Store)
      → 1 ≤ limit
      → lookup s key now ≡ none
      → IsWithin now (now + ms_until_midnight now) rest
      → (granted (now ∷ rest) s ≡ min (length (now ∷ rest)) limit)
        × ((t : ℕ) → now + ms_until_midnight now ≤ t → lookup (after (now ∷ rest) s) key t ≡ none)
  unfolding granted after
  granted-first now rest s h e w =
      let step = first_check now s h e in
      let (sum, over) =
        granted-next now 1 (now + ms_until_midnight now) rest (check_key c limit key now s).1
          (omega arith) h (omega arith) w step.1 in
      (ground (arith, step.0, sum), over)

  granted-append :
      (xs ys : List ℕ) (s : Store) → granted (xs ++ ys) s ≡ granted xs s + granted ys (after xs s)
  unfolding granted after
  granted-append [] ys s = omega arith
  granted-append (x ∷ xs) ys s = omega (arith, granted-append xs ys (check_key c limit key x s).1)

module _ (c : Counters) (user : List ℕ) (plan : ConnectionPlan) (local_date : ℕ → List ℕ) where
  open c use {Store, lookup}

  -- How many of the checks of the user at these times were allowed.
  pub sent : List ℕ → Store → ℕ
  sent [] s = 0
  sent (now ∷ rest) s =
      let (answer, s') = check_daily_quota c user plan local_date now s in
      (if answer.allowed then 1 else 0) + sent rest s'

  abbrev key_of : List ℕ → List ℕ
  key_of date = connection_request_daily_quota_key user date

  sent-granted :
      (date : List ℕ) (times : List ℕ) (s : Store)
      → All (λ t. local_date t ≡ date) times
      → sent times s ≡ granted c (daily_limits plan) (key_of date) times s
  unfolding sent granted check_daily_quota
  sent-granted date [] s h = refl
  sent-granted date (now ∷ rest) s h =
      let next =
        sent-granted date rest (check_key c (daily_limits plan) (key_of date) now s).1 h.1 in
      rw (h.0, next) refl

  limit-pos : (p : ConnectionPlan) → 1 ≤ daily_limits p
  unfolding daily_limits
  limit-pos free = omega arith
  limit-pos premium = omega arith
  limit-pos pro = omega arith

  -- From a date without a counter, of the checks of a user on that date, before the counter expires,
  -- exactly the first are allowed, up to the limit of the plan.
  pub sent-daily_limits :
      (date : List ℕ) (now : ℕ) (rest : List ℕ) (s : Store)
      → lookup s (connection_request_daily_quota_key user date) now ≡ none
      → All (λ t. local_date t ≡ date) (now ∷ rest)
      → IsWithin c
          (daily_limits plan)
          (connection_request_daily_quota_key user date)
          now
          (now + ms_until_midnight now)
          rest
      → sent (now ∷ rest) s ≡ min (length (now ∷ rest)) (daily_limits plan)
  sent-daily_limits date now rest s e h w =
      sent-granted date (now ∷ rest) s h
      ∙ (granted-first c (daily_limits plan) (key_of date) now rest s (limit-pos plan) e w).0

  -- The counter of a date ends at a midnight of UTC, not of the user: on a local date that goes on
  -- after it, the limit is granted once more.
  pub sent-across_midnight :
      (date : List ℕ) (now : ℕ) (rest : List ℕ) (evening : ℕ) (others : List ℕ) (s : Store)
      → lookup s (connection_request_daily_quota_key user date) now ≡ none
      → All (λ t. local_date t ≡ date) ((now ∷ rest) ++ (evening ∷ others))
      → IsWithin c
          (daily_limits plan)
          (connection_request_daily_quota_key user date)
          now
          (now + ms_until_midnight now)
          rest
      → now + ms_until_midnight now ≤ evening
      → IsWithin c
          (daily_limits plan)
          (connection_request_daily_quota_key user date)
          evening
          (evening + ms_until_midnight evening)
          others
      → sent ((now ∷ rest) ++ (evening ∷ others)) s
        ≡ min (length (now ∷ rest)) (daily_limits plan)
          + min (length (evening ∷ others)) (daily_limits plan)
  sent-across_midnight date now rest evening others s e h w over v =
      let limit = daily_limits plan in
      let key = key_of date in
      let day = granted-first c limit key now rest s (limit-pos plan) e w in
      let s' = after c limit key (now ∷ rest) s in
      let night =
        granted-first c limit key evening others s' (limit-pos plan) (day.1 evening over) v in
      omega (
        arith,
        sent-granted date ((now ∷ rest) ++ (evening ∷ others)) s h,
        granted-append c limit key (now ∷ rest) (evening ∷ others) s,
        day.0,
        night.0,
      )
