-- ===== src/Connections/Sending/Limits.antt =====
-- What a send that is let through has met of the limits on senders (connections.service.ts,
-- connection-quota.service.ts): the soft block, the notes of the last day, the window of a minute and
-- the quota of the day, each read off the stores as they were at the call.
use convene.Common.{
  ℕ, ◌+◌, ◌<◌, ◌≡◌, refl, ap, subst, ◌∙◌, ◌⊎◌, inl, inr, true, false, none, Option, List, [], ◌∷◌,
  ◌++◌, arith, ltb, count, length, select,
}
use convene.Errors.{M, ok, bind-cases, ◌>>=◌, ◌>>◌}
use convene.Infra.Keys.{
  connection_request_daily_quota_key, connection_request_soft_block_key, rate_limit_key, codes,
}
use convene.Infra.Redis.{Redis}
use convene.Infra.Redis.Counters.{Counters, value_of}
use convene.RateLimit.{rate_limit_policies}
use convene.RateLimit.Window.{SortedSets}
use convene.RateLimit.Script.{eval_sliding_window}
use convene.Connections.Quota.{
  ConnectionPlan, free, premium, pro, DailyQuota, check_daily_quota, check_key, check_velocity,
  daily_limits, is_soft_blocked, plan_to_velocity_scope,
}
use convene.Connections.Quota.Notes.{
  HistoryEntry, is_similar, words_of, take, record_note, record_note_and_check_duplicate,
}
use convene.Connections.Sending.{
  SendConnectionRequestInput, Facts, SendDraw, SendConnectionRequestResult,
}
use convene.Connections.Sending.Checks.{
  State, assert_not_soft_blocked, assert_note_not_spam, assert_velocity_allowed,
  assert_daily_quota_allowed,
}
use convene.Connections.Sending.Flow.{insert_request, send_pending}

-- Requests in a day, and in a minute, for each plan.
abbrev pub most_in_day : ConnectionPlan → ℕ
most_in_day free = 8
most_in_day premium = 30
most_in_day pro = 120

abbrev pub most_in_minute : ConnectionPlan → ℕ
most_in_minute free = 5
most_in_minute premium = 5
most_in_minute pro = 8

-- Fewer than three of the last twenty notes are of the last day and similar to this one.
abbrev pub IsFresh : (List ℕ → List ℕ) → Option (List ℕ) → ℕ → List HistoryEntry → Type 0
IsFresh lower note now history =
    (words_of lower note ≡ [])
    ⊎ (count (λ e. is_similar e.words (words_of lower note))
          (select (λ e. ltb now (e.ts + 86400000)) (take 20 history))
        < 3)

record_note-IsFresh :
    (words : List (List ℕ)) (now : ℕ) (history : List HistoryEntry)
    → (record_note words now history).0 ≡ false
    → (words ≡ [])
      ⊎ (count
            (λ e. is_similar e.words words)
            (select (λ e. ltb now (e.ts + 86400000)) (take 20 history))
          < 3)
unfolding record_note
record_note-IsFresh [] now history h = inl refl
record_note-IsFresh (w ∷ ws) now history h = inr (ground arith)

abbrev pub velocity_key : List ℕ → ConnectionPlan → List ℕ
velocity_key user pro =
    rate_limit_key (codes "connection-requests-velocity-pro") (codes "user=" ++ user)
velocity_key user _ = rate_limit_key (codes "connection-requests-velocity") (codes "user=" ++ user)

module _ (w : SortedSets) where
  velocity_of :
      (user : List ℕ) (plan : ConnectionPlan) (now member : ℕ) (v : SortedSets.Store w)
      → (check_velocity w user plan now member v).0.allowed ≡ true
      → length (
          select
            (λ m. ltb now (m.score + 60000))
            (SortedSets.zset w v (velocity_key user plan) now))
        < most_in_minute plan
  unfolding check_velocity eval_sliding_window plan_to_velocity_scope rate_limit_policies
  velocity_of user free now member v h =
      let kept =
        SortedSets.zset-zremrangebyscore w v (velocity_key user free) 60000 now now (omega arith) in
      ground arith
  velocity_of user premium now member v h =
      let kept =
        SortedSets.zset-zremrangebyscore w v (velocity_key user premium) 60000 now now
          (omega arith) in
      ground arith
  velocity_of user pro now member v h =
      let kept =
        SortedSets.zset-zremrangebyscore w v (velocity_key user pro) 60000 now now (omega arith) in
      ground arith

module _ (c : Counters) where
  daily_of :
      (user : List ℕ) (plan : ConnectionPlan) (date : ℕ → List ℕ) (now : ℕ) (d : Counters.Store c)
      → (check_daily_quota c user plan date now d).0.allowed ≡ true
      → value_of (Counters.lookup c d (connection_request_daily_quota_key user (date now)) now)
        < most_in_day plan
  unfolding check_daily_quota check_key daily_limits
  daily_of user free date now d h =
      let key = connection_request_daily_quota_key user (date now) in
      let more = Counters.lookup-incr c d key now in ground arith
  daily_of user premium date now d h =
      let key = connection_request_daily_quota_key user (date now) in
      let more = Counters.lookup-incr c d key now in ground arith
  daily_of user pro date now d h =
      let key = connection_request_daily_quota_key user (date now) in
      let more = Counters.lookup-incr c d key now in ground arith

module _ (w : SortedSets) (c : Counters) (f : Redis ℕ) where
  -- A sender is within the limits who is not soft-blocked, does not repeat a note, has fewer
  -- requests of the last minute than the plan lets through, and fewer of the day.
  pub record IsWithinLimits (facts : Facts) (sender : ℕ) (plan : ConnectionPlan)
      (note : Option (List ℕ)) (now : ℕ) (s : State w c f) : Type 0 where
    pub unblocked :
        Redis.get f s.flags (connection_request_soft_block_key (facts.id_text sender)) now ≡ none
    pub fresh : IsFresh facts.lower note now (s.notes sender)
    pub in_minute :
        length (
          select
            (λ m. ltb now (m.score + 60000))
            (SortedSets.zset w s.velocity (velocity_key (facts.id_text sender) plan) now))
        < most_in_minute plan
    pub in_day :
        value_of (
          Counters.lookup c s.daily
            (connection_request_daily_quota_key
              (facts.id_text sender)
              (facts.local_date sender now))
            now)
        < most_in_day plan

  ok_first :
      {A B : Type 0} (m : M (State w c f) A) (k : A → M (State w c f) B) (s : State w c f) {b : B}
      → ((m >>= k) s).0 ≡ ok b
      → (a : A) × (t : State w c f) × (m s ≡ (ok a, t)) × ((k a t).0 ≡ ok b)
  ok_first {A} {B} m k s {b = b} =
      bind-cases
        (λ r. r.0 ≡ ok b → (a : A) × (t : State w c f) × (m s ≡ (ok a, t)) × ((k a t).0 ≡ ok b)) m k
        s (λ e t q h. cc) (λ a t q h. (a, t, q, h))

  soft_block_ok :
      (facts : Facts) (sender now : ℕ) (s t : State w c f) {u : Unit {0}}
      → assert_not_soft_blocked w c f facts sender now s ≡ (ok u, t)
      → (Redis.get f s.flags (connection_request_soft_block_key (facts.id_text sender)) now ≡ none)
        × (t ≡ s)
  unfolding is_soft_blocked
  soft_block_ok facts sender now s t q = (ground arith, ground arith)

  note_ok :
      (facts : Facts) (sender : ℕ) (note : Option (List ℕ)) (now : ℕ) (s t : State w c f)
      {u : Unit {0}}
      → assert_note_not_spam w c f facts sender note now s ≡ (ok u, t)
      → (IsFresh facts.lower note now (s.notes sender))
        × (t.velocity ≡ s.velocity)
        × (t.daily ≡ s.daily)
  unfolding assert_note_not_spam record_note_and_check_duplicate
  note_ok facts sender note now s t q = (
    record_note-IsFresh (words_of facts.lower note) now (s.notes sender) (ground arith),
    ground arith,
    ground arith,
  )

  velocity_ok :
      (facts : Facts) (sender : ℕ) (plan : ConnectionPlan) (now member : ℕ) (s t : State w c f)
      {u : Unit {0}}
      → assert_velocity_allowed w c f facts sender plan now member s ≡ (ok u, t)
      → ((check_velocity w (facts.id_text sender) plan now member s.velocity).0.allowed ≡ true)
        × (t.daily ≡ s.daily)
  unfolding assert_velocity_allowed
  velocity_ok facts sender plan now member s t q = (ground arith, ground arith)

  daily_ok :
      (facts : Facts) (sender : ℕ) (plan : ConnectionPlan) (now : ℕ) (s t : State w c f)
      {a : DailyQuota}
      → assert_daily_quota_allowed w c f facts sender plan now s ≡ (ok a, t)
      → let answer =
          check_daily_quota c (facts.id_text sender) plan (facts.local_date sender) now s.daily in
        answer.0.allowed ≡ true
  unfolding assert_daily_quota_allowed
  daily_ok facts sender plan now s t q = ground arith

  pub send_pending-IsWithinLimits :
      (facts : Facts) (sender : ℕ) (plan : ConnectionPlan) (input : SendConnectionRequestInput)
      (draw : SendDraw) (now : ℕ) (s : State w c f) {a : SendConnectionRequestResult}
      → (send_pending w c f facts sender plan input draw now s).0 ≡ ok a
      → IsWithinLimits facts sender plan input.note now s
  unfolding send_pending
  send_pending-IsWithinLimits facts sender plan input draw now s {a = a} h =
      let quota = assert_daily_quota_allowed w c f facts sender plan now in
      let velocity = assert_velocity_allowed w c f facts sender plan now draw.member in
      let note = assert_note_not_spam w c f facts sender input.note now in
      let last = insert_request w c f facts sender input draw now in
      let (u1, s1, q1, h1) =
        ok_first (assert_not_soft_blocked w c f facts sender now)
          (λ _. note >> (velocity >> (quota >>= last))) s {b = a} h in
      let (u2, s2, q2, h2) = ok_first note (λ _. velocity >> (quota >>= last)) s1 {b = a} h1 in
      let (u3, s3, q3, h3) = ok_first velocity (λ _. quota >>= last) s2 {b = a} h2 in
      let (u4, s4, q4, h4) = ok_first quota last s3 {b = a} h3 in
      let (unblocked, same) = soft_block_ok facts sender now s s1 q1 in
      let (fresh, velocity_same, daily_same) = note_ok facts sender input.note now s1 s2 q2 in
      let (allowed, daily_kept) = velocity_ok facts sender plan now draw.member s2 s3 q3 in
      let user = facts.id_text sender in
      let minute = velocity_of w user plan now draw.member s2.velocity allowed in
      let day =
        daily_of c user plan (facts.local_date sender) now s3.daily
          (daily_ok facts sender plan now s3 s4 q4) in
      record {
        unblocked = unblocked;
        fresh = subst (λ x. IsFresh facts.lower input.note now (x.notes sender)) same fresh;
        in_minute =
            subst
              (λ v.
                length (
                  select (λ m. ltb now (m.score + 60000))
                    (SortedSets.zset w v (velocity_key user plan) now))
                < most_in_minute plan)
              (velocity_same ∙ ap (λ x. x.velocity) same) minute;
        in_day =
            subst
              (λ d.
                value_of (
                  Counters.lookup c d
                    (connection_request_daily_quota_key user (facts.local_date sender now)) now)
                < most_in_day plan)
              (daily_kept ∙ daily_same ∙ ap (λ x. x.daily) same) day;
      }
