-- ===== src/Connections/Sending/Allowed.antt =====
-- A sender within the limits is let through by the checks that follow (connections.service.ts,
-- connection-quota.service.ts).
use convene.Common.{
  Bool, sym, if◌then◌else◌, ℕ, ◌+◌, ◌<◌, ◌≡◌, refl, ap, subst, ◌∙◌, ◌⊎◌, true, false, none, Option,
  List, [], ◌∷◌, arith, ltb, count, length, select,
}
use convene.Errors.{M, ok, ◌>>=◌, ◌>>◌}
use convene.Infra.Keys.{connection_request_daily_quota_key, connection_request_soft_block_key}
use convene.Infra.Redis.{Redis}
use convene.Infra.Redis.Counters.{Counters, value_of}
use convene.RateLimit.{rate_limit_policies}
use convene.RateLimit.Window.{SortedSets}
use convene.RateLimit.Script.{eval_sliding_window}
use convene.Connections.Quota.{
  ConnectionPlan, free, premium, pro, DailyQuota, check_daily_quota, check_key, check_velocity,
  daily_limits, is_soft_blocked, plan_to_velocity_scope,
}
use convene.Connections.Quota.Notes.{
  HistoryEntry, is_similar, words_of, take, record_note, record_note_and_check_duplicate,
}
use convene.Connections.Sending.{
  SendConnectionRequestInput, Facts, SendDraw, SendConnectionRequestResult,
}
use convene.Connections.Sending.Checks.{
  State, assert_not_soft_blocked, assert_note_not_spam, assert_velocity_allowed,
  assert_daily_quota_allowed,
}
use convene.Connections.Sending.Flow.{insert_request, send_pending}
use convene.Connections.Requests.{create_request, is_refused, new_request}
use convene.Connections.Sending.{create_input}
use convene.Connections.Sending.Checks.{throttle_of}
use convene.Connections.Sending.Limits.{
  IsFresh, IsWithinLimits, most_in_day, most_in_minute, velocity_key,
}

IsFresh-record_note :
    (words : List (List ℕ)) (now : ℕ) (history : List HistoryEntry)
    → (words ≡ [])
      ⊎ (count
            (λ e. is_similar e.words words)
            (select (λ e. ltb now (e.ts + 86400000)) (take 20 history))
          < 3)
    → (record_note words now history).0 ≡ false
unfolding record_note
IsFresh-record_note [] now history h = refl
IsFresh-record_note (w ∷ ws) now history h = ground arith

module _ (w : SortedSets) where
  in_minute_allowed :
      (user : List ℕ) (plan : ConnectionPlan) (now member : ℕ) (v : SortedSets.Store w)
      → length (
          select
            (λ m. ltb now (m.score + 60000))
            (SortedSets.zset w v (velocity_key user plan) now))
        < most_in_minute plan
      → (check_velocity w user plan now member v).0.allowed ≡ true
  unfolding check_velocity eval_sliding_window plan_to_velocity_scope rate_limit_policies
  in_minute_allowed user free now member v h =
      let kept =
        SortedSets.zset-zremrangebyscore w v (velocity_key user free) 60000 now now (omega arith) in
      ground arith
  in_minute_allowed user premium now member v h =
      let kept =
        SortedSets.zset-zremrangebyscore w v (velocity_key user premium) 60000 now now
          (omega arith) in
      ground arith
  in_minute_allowed user pro now member v h =
      let kept =
        SortedSets.zset-zremrangebyscore w v (velocity_key user pro) 60000 now now (omega arith) in
      ground arith

module _ (c : Counters) where
  in_day_allowed :
      (user : List ℕ) (plan : ConnectionPlan) (date : ℕ → List ℕ) (now : ℕ) (d : Counters.Store c)
      → value_of (Counters.lookup c d (connection_request_daily_quota_key user (date now)) now)
        < most_in_day plan
      → (check_daily_quota c user plan date now d).0.allowed ≡ true
  unfolding check_daily_quota check_key daily_limits
  in_day_allowed user free date now d h =
      let key = connection_request_daily_quota_key user (date now) in
      let more = Counters.lookup-incr c d key now in ground arith
  in_day_allowed user premium date now d h =
      let key = connection_request_daily_quota_key user (date now) in
      let more = Counters.lookup-incr c d key now in ground arith
  in_day_allowed user pro date now d h =
      let key = connection_request_daily_quota_key user (date now) in
      let more = Counters.lookup-incr c d key now in ground arith

module _ (w : SortedSets) (c : Counters) (f : Redis ℕ) where
  -- A step that answers leads on to what follows it.
  go_on :
      {A B : Type 0} (m : M (State w c f) A) (k : A → M (State w c f) B) (s t : State w c f) {a : A}
      → m s ≡ (ok a, t)
      → ((m >>= k) s) ≡ k a t
  go_on m k s t q = ground arith

  insert_goes :
      (facts : Facts) (sender : ℕ) (input : SendConnectionRequestInput) (draw : SendDraw) (now : ℕ)
      (quota : DailyQuota) (s : State w c f)
      → ((q : Bool) → is_refused (create_input sender input q) s.db ≡ false)
      → (a : SendConnectionRequestResult) × ((insert_request w c f facts sender input draw now quota
            s).0
          ≡ ok a)
  unfolding insert_request create_request
  insert_goes facts sender input draw now quota s h =
      let throttle = throttle_of w c f facts input.recipient_id now s.db in
      let fine = h throttle.0 in
      (
        record {
          status = if throttle.0 then 202 else 201;
          request = new_request draw.rows.request (create_input sender input throttle.0) now;
          quota = quota;
          queued_position = throttle.1;
        },
        ground arith,
      )

  soft_block_goes :
      (facts : Facts) (sender now : ℕ) (s : State w c f)
      → Redis.get f s.flags (connection_request_soft_block_key (facts.id_text sender)) now ≡ none
      → assert_not_soft_blocked w c f facts sender now s ≡ (ok tt, s)
  unfolding is_soft_blocked
  soft_block_goes facts sender now s h = ground arith

  note_goes :
      (facts : Facts) (sender : ℕ) (note : Option (List ℕ)) (now : ℕ) (s : State w c f)
      → IsFresh facts.lower note now (s.notes sender)
      → (t : State w c f) × (assert_note_not_spam w c f facts sender note now s ≡ (ok tt, t))
        × (t.velocity ≡ s.velocity)
        × (t.daily ≡ s.daily)
        × (t.db ≡ s.db)
  unfolding assert_note_not_spam record_note_and_check_duplicate
  note_goes facts sender note now s h =
      let fine = IsFresh-record_note (words_of facts.lower note) now (s.notes sender) h in
      (
        (assert_note_not_spam w c f facts sender note now s).1,
        ground arith,
        ground arith,
        ground arith,
        ground arith,
      )

  velocity_goes :
      (facts : Facts) (sender : ℕ) (plan : ConnectionPlan) (now member : ℕ) (s : State w c f)
      → (check_velocity w (facts.id_text sender) plan now member s.velocity).0.allowed ≡ true
      → (t : State w c f) × (assert_velocity_allowed w c f facts sender plan now member s
          ≡ (ok tt, t))
        × (t.daily ≡ s.daily)
        × (t.db ≡ s.db)
  unfolding assert_velocity_allowed
  velocity_goes facts sender plan now member s h = (
    (assert_velocity_allowed w c f facts sender plan now member s).1,
    ground arith,
    ground arith,
    ground arith,
  )

  daily_goes :
      (facts : Facts) (sender : ℕ) (plan : ConnectionPlan) (now : ℕ) (s : State w c f)
      → let answer =
          check_daily_quota c (facts.id_text sender) plan (facts.local_date sender) now s.daily in
        answer.0.allowed ≡ true
        → (a : DailyQuota) × (t : State w c f) × (assert_daily_quota_allowed w c f facts sender plan
              now s
            ≡ (ok a, t))
          × (t.db ≡ s.db)
  unfolding assert_daily_quota_allowed
  daily_goes facts sender plan now s h =
      let answer =
        check_daily_quota c (facts.id_text sender) plan (facts.local_date sender) now s.daily in
      (
        answer.0.quota,
        (assert_daily_quota_allowed w c f facts sender plan now s).1,
        ground arith,
        ground arith,
      )

  pub IsWithinLimits-send_pending :
      (facts : Facts) (sender : ℕ) (plan : ConnectionPlan) (input : SendConnectionRequestInput)
      (draw : SendDraw) (now : ℕ) (s : State w c f)
      → ((q : Bool) → is_refused (create_input sender input q) s.db ≡ false)
      → IsWithinLimits w c f facts sender plan input.note now s
      → (a : SendConnectionRequestResult) × ((send_pending w c f facts sender plan input draw now
            s).0
          ≡ ok a)
  unfolding send_pending
  IsWithinLimits-send_pending facts sender plan input draw now s may lim =
      let user = facts.id_text sender in
      let date = facts.local_date sender in
      let quota = assert_daily_quota_allowed w c f facts sender plan now in
      let velocity = assert_velocity_allowed w c f facts sender plan now draw.member in
      let note = assert_note_not_spam w c f facts sender input.note now in
      let last = insert_request w c f facts sender input draw now in
      let go1 = soft_block_goes facts sender now s lim.unblocked in
      let (s2, go2, velocity2, daily2, db2) = note_goes facts sender input.note now s lim.fresh in
      let minute = in_minute_allowed w user plan now draw.member s.velocity lim.in_minute in
      let (s3, go3, daily3, db3) = velocity_goes facts sender plan now draw.member s2 (
        subst (λ v. (check_velocity w user plan now draw.member v).0.allowed ≡ true) (sym velocity2)
          minute) in
      let day = in_day_allowed c user plan date now s.daily lim.in_day in
      let (a, s4, go4, db4) = daily_goes facts sender plan now s3 (
        subst (λ d. (check_daily_quota c user plan date now d).0.allowed ≡ true)
          (sym (daily3 ∙ daily2)) day) in
      let (b, done) = insert_goes facts sender input draw now a s4 (
        subst (λ d. (q : Bool) → is_refused (create_input sender input q) d ≡ false)
          (sym (db4 ∙ db3 ∙ db2)) may) in
      let chain =
        go_on (assert_not_soft_blocked w c f facts sender now)
          (λ _. note >> (velocity >> (quota >>= last))) s s go1
        ∙ go_on note (λ _. velocity >> (quota >>= last)) s s2 go2
        ∙ go_on velocity (λ _. quota >>= last) s2 s3 go3
        ∙ go_on quota last s3 s4 go4 in
      (b, ap (λ r. r.0) chain ∙ done)
