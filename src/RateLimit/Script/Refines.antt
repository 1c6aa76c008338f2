-- ===== src/RateLimit/Script/Refines.antt =====
-- The script answers as the log of admitted times does, whatever it removes and whenever Redis lets
-- its key expire.
use convene.Common.{
  ℕ, ◌+◌, ◌≤◌, ◌≡◌, refl, Bool, false, ◌&&◌, List, [], ◌∷◌, arith, ltb, leb, if◌then◌else◌, map, ap,
  All-imp, All-insert, count, count-insert, length, length-select, select, insert, Bool-cases, inl,
  inr,
}
use convene.RateLimit.Log.{
  is_recent, recent, admits, admit, Past, admit-Past, admit-IsLimited, IsLimited, admissions,
}
use convene.RateLimit.Window.{Member, SortedSets, has_member}
use convene.RateLimit.Script.{eval_sliding_window}

pub record Attempt : Type 0 where
  pub at : ℕ
  pub member : ℕ

abbrev is_live : ℕ → ℕ → Member → Bool
is_live window t m = is_recent window t m.score

has_member-select :
    (id window now : ℕ) (ys xs : List Member)
    → ys ≡ select (λ m. ltb now (m.score + window)) xs
    → has_member id xs ≡ false
    → has_member id ys ≡ false
has_member-select id window now ys xs e h = rw e (go xs h)
  where
    go :
        (zs : List Member)
        → has_member id zs ≡ false
        → has_member id (select (λ m. ltb now (m.score + window)) zs) ≡ false
    go [] f = refl
    go (z ∷ zs) f = ground (arith, go zs)

count-select_weaker :
    (window now t : ℕ) (xs : List Member)
    → now ≤ t
    → count (is_live window t) (select (λ m. ltb now (m.score + window)) xs)
      ≡ count (is_live window t) xs
count-select_weaker window now t [] le = refl
count-select_weaker window now t (x ∷ xs) le =
    ground (arith, count-select_weaker window now t xs le)

recent_over :
    (window last t : ℕ) (log : List ℕ) → last + window ≤ t → Past last log → recent window t log ≡ 0
recent_over window last t [] le past = refl
recent_over window last t (x ∷ log) le past =
    ground (arith, recent_over window last t log le past.1, past.0)

module _ (r : SortedSets) (key : List ℕ) (limit window : ℕ) where
  open r use {
    Store, zset, zremrangebyscore, zadd, pexpire, zset-zremrangebyscore, count-zadd, zset-pexpire,
    zset-pexpire_expired,
  }

  -- What of the log the set of the key still holds, seen from now on.
  abbrev pub Holds : ℕ → Store → List ℕ → Type 0
  Holds last s log =
      (t u : ℕ) → last ≤ t → t ≤ u → count (is_live window u) (zset s key t) ≡ recent window u log

  kept-Holds :
      (last now : ℕ) (s : Store) (log : List ℕ)
      → last ≤ now
      → Holds last s log
      → Holds now (zremrangebyscore s key window now) log
  kept-Holds last now s log le h t u a b = omega (
    arith,
    ap (count (is_live window u)) (zset-zremrangebyscore s key window now t a),
    count-select_weaker window now u (zset s key t) (omega arith),
    h t u (omega arith) b,
  )

  -- ZCARD after the removal.
  length-kept :
      (last now : ℕ) (s : Store) (log : List ℕ)
      → last ≤ now
      → Holds last s log
      → length (zset (zremrangebyscore s key window now) key now) ≡ recent window now log
  length-kept last now s log le h = omega (
    arith,
    ap length (zset-zremrangebyscore s key window now now (omega arith)),
    length-select (is_live window now) (zset s key now),
    h now now le (omega arith),
  )

  added-Holds :
      (now id : ℕ) (s : Store) (log : List ℕ)
      → Past now log
      → has_member id (zset s key now) ≡ false
      → Holds now s log
      → Holds now
          (pexpire (zadd s key (record { score = now; member = id }) now) key window now)
          (insert now log)
  added-Holds now id s log past fresh h t u a b =
      let m : Member = record { score = now; member = id } in
      elim (Bool-cases (ltb t (now + window))) [
        | inl live ↦ omega (
          arith,
          ap (count (is_live window u))
              (zset-pexpire (zadd s key m now) key window now t a (ground arith)),
          count-zadd s key m now (is_live window u) fresh,
          count-insert (is_recent window u) now log,
          h now u (omega arith) (omega arith),
        )
        | inr over ↦ omega (
          arith,
          ap (count (is_live window u))
              (zset-pexpire_expired (zadd s key m now) key window now t (ground arith)),
          recent_over window now u (insert now log) (ground arith)
              (All-insert _ now log past (omega arith)),
        )
      ]

  -- One run of the script: its answer is that of the log, and it goes on holding the log.
  pub eval_sliding_window-Holds :
      (last now id : ℕ) (s : Store) (log : List ℕ)
      → last ≤ now
      → has_member id (zset s key now) ≡ false
      → Past last log
      → Holds last s log
      → let (answer, s') = eval_sliding_window r key now window limit id s in
        (answer.allowed ≡ admits limit window now log) × Holds now s' (admit limit window now log)
  unfolding eval_sliding_window admit
  eval_sliding_window-Holds last now id s log le fresh past h =
      let kept = zremrangebyscore s key window now in
      let total = length-kept last now s log le h in
      let holds = kept-Holds last now s log le h in
      let old : Past now log = All-imp _ _ log (λ x a. omega arith) past in
      let new : has_member id (zset kept key now) ≡ false =
        has_member-select id window now _ _
          (zset-zremrangebyscore s key window now now (omega arith)) fresh in
      elim (Bool-cases (ltb (recent window now log) limit)) [
        | inl t ↦ rw (total, t) (refl, added-Holds now id kept log old new holds)
        | inr f ↦ rw (total, f) (refl, holds)
      ]

  -- Attempts on the key, in the order of their times, each with an id that the set does not have.
  abbrev pub IsRun : ℕ → List Attempt → Store → Type 0
  IsRun last [] s = Unit
  IsRun last (a ∷ rest) s =
      (last ≤ a.at)
      × (has_member a.member (zset s key a.at) ≡ false)
      × IsRun a.at rest (eval_sliding_window r key a.at window limit a.member s).1

  -- What the script answers to each attempt.
  unfoldable pub answers : List Attempt → Store → List Bool
  answers [] s = []
  answers (a ∷ rest) s =
      let (answer, s') = eval_sliding_window r key a.at window limit a.member s in
      answer.allowed ∷ answers rest s'

  -- The times at which it allowed one.
  unfoldable pub allowed_times : List Attempt → Store → List ℕ → List ℕ
  allowed_times [] s times = times
  allowed_times (a ∷ rest) s times =
      let (answer, s') = eval_sliding_window r key a.at window limit a.member s in
      allowed_times rest s' (if answer.allowed then insert a.at times else times)

  answers-admissions :
      (last : ℕ) (attempts : List Attempt) (s : Store) (log : List ℕ)
      → IsRun last attempts s
      → Past last log
      → Holds last s log
      → answers attempts s ≡ admissions limit window (map (λ a. a.at) attempts) log
  unfolding answers admissions
  answers-admissions last [] s log run past h = refl
  answers-admissions last (a ∷ rest) s log run past h =
      let step = eval_sliding_window-Holds last a.at a.member s log run.0 run.1 past h in
      let next =
        answers-admissions a.at rest _ (admit limit window a.at log) run.2
          (admit-Past limit window last a.at log run.0 past) step.1 in
      cc (step.0, next)

  allowed_times-IsLimited :
      (last : ℕ) (attempts : List Attempt) (s : Store) (log : List ℕ)
      → IsRun last attempts s
      → Past last log
      → Holds last s log
      → IsLimited limit window log
      → IsLimited limit window (allowed_times attempts s log)
  unfolding allowed_times
  allowed_times-IsLimited last [] s log run past h l = l
  allowed_times-IsLimited last (a ∷ rest) s log run past h l =
      let step = eval_sliding_window-Holds last a.at a.member s log run.0 run.1 past h in
      let same : (if (eval_sliding_window r key a.at window limit a.member s).0.allowed
            then insert a.at log
            else log)
          ≡ admit limit window a.at log =
        unfold admit in rw step.0 refl in
      rw same (
        allowed_times-IsLimited a.at rest _ (admit limit window a.at log) run.2
          (admit-Past limit window last a.at log run.0 past) step.1
          (admit-IsLimited limit window a.at log l))

  -- From a key that Redis does not have, the answers of the script to a run are those of the log of
  -- admitted times.
  pub run-admissions :
      (attempts : List Attempt) (s : Store)
      → ((t : ℕ) → zset s key t ≡ [])
      → IsRun 0 attempts s
      → answers attempts s ≡ admissions limit window (map (λ a. a.at) attempts) []
  run-admissions attempts s empty run =
      answers-admissions 0 attempts s [] run tt (λ t u a b. rw (empty t) refl)

  -- From a key that Redis does not have, and whatever attempts follow in the order of their times, the
  -- script allows at most `limit` of them in any window, open at its start.
  pub run-limited :
      (attempts : List Attempt) (s : Store) (start : ℕ)
      → ((t : ℕ) → zset s key t ≡ [])
      → IsRun 0 attempts s
      → count (λ x. ltb start x && leb x (start + window)) (allowed_times attempts s []) ≤ limit
  run-limited attempts s start empty run =
      allowed_times-IsLimited 0 attempts s [] run tt (λ t u a b. rw (empty t) refl)
        (λ start. omega arith) start
