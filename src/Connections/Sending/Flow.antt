-- ===== src/Connections/Sending/Flow.antt =====
-- connections.service.ts: `sendRequest` and `completeMutualAccept`.
use convene.Common.{ℕ, zero, suc, false, none, some, find_first, if◌then◌else◌}
use convene.Errors.{M, pure, throw, modify, ◌>>=◌, ◌>>◌, app_error, ErrorClass, ErrorCode}
use convene.Infra.Redis.{Redis}
use convene.Infra.Redis.Counters.{Counters}
use convene.RateLimit.Window.{SortedSets}
use convene.Connections.{Request, is_pending_between}
use convene.Connections.Requests.{create_request}
use convene.Connections.Service.{notify}
use convene.Connections.Mutual.{MutualAccept, accept_mutual_requests}
use convene.Connections.Quota.{ConnectionPlan, DailyQuota}
use convene.Connections.Sending.{
  SendConnectionRequestInput, Facts, SendDraw, SendConnectionRequestResult, create_input,
}
use convene.Connections.Sending.Checks.{
  State, on_db, reads, assert_sendable, assert_not_soft_blocked, assert_note_not_spam,
  assert_velocity_allowed, assert_daily_quota_allowed, throttle_of,
}

module _ (w : SortedSets) (c : Counters) (f : Redis ℕ) where
  unfoldable pub insert_request :
      Facts
      → ℕ
      → SendConnectionRequestInput
      → SendDraw
      → ℕ
      → DailyQuota
      → M (State w c f) SendConnectionRequestResult
  insert_request facts sender input draw now quota s =
      let throttle = throttle_of w c f facts input.recipient_id now s.db in
      (on_db w c f (create_request draw.rows.request (create_input sender input throttle.0) now)
          >>= λ created. pure (record {
            status = if throttle.0 then 202 else 201;
            request = created;
            quota = quota;
            queued_position = throttle.1;
          }))
        s

  -- The rest of `sendRequest` where no request of the other way is pending.
  unfoldable pub send_pending :
      Facts
      → ℕ
      → ConnectionPlan
      → SendConnectionRequestInput
      → SendDraw
      → ℕ
      → M (State w c f) SendConnectionRequestResult
  send_pending facts sender plan input draw now =
      assert_not_soft_blocked w c f facts sender now
      >> (assert_note_not_spam w c f facts sender input.note now
          >> (assert_velocity_allowed w c f facts sender plan now draw.member
              >> (assert_daily_quota_allowed w c f facts sender plan now >>= λ quota.
                  insert_request facts sender input draw now quota)))

  abbrev pub mutual_result : ℕ → MutualAccept → SendConnectionRequestResult
  mutual_result now m = record {
    status = 201;
    request = m.new_request;
    quota = record { used = 0; limit = 0; resets_at = now };
    queued_position = none;
  }

  -- `again` is the call of sendRequest that follows a lost race.
  unfoldable pub complete_mutual_accept :
      M (State w c f) SendConnectionRequestResult
      → Request
      → ℕ
      → SendConnectionRequestInput
      → SendDraw
      → ℕ
      → M (State w c f) SendConnectionRequestResult
  complete_mutual_accept again reverse sender input draw now =
      on_db w c f
        (accept_mutual_requests draw.rows reverse.id (create_input sender input false) now)
      >>= λ result. elim result [
        | none ↦ again
        | some m ↦
            on_db w c f (modify (notify m.new_request.sender_id))
            >> (on_db w c f (modify (notify m.existing_request.sender_id))
                >> pure (mutual_result now m))
      ]

  unfoldable pub send_request_or :
      M (State w c f) SendConnectionRequestResult
      → Facts
      → ℕ
      → ConnectionPlan
      → SendConnectionRequestInput
      → SendDraw
      → ℕ
      → M (State w c f) SendConnectionRequestResult
  send_request_or again facts sender plan input draw now =
      assert_sendable w c f facts sender input now
      >> (reads w c f (λ db. find_first (is_pending_between input.recipient_id sender) db.requests)
          >>= λ reverse. elim reverse [
            | some r ↦ complete_mutual_accept again r sender input draw now
            | none ↦ send_pending facts sender plan input draw now
          ])

  -- A call that loses the race `fuel` times gives up; without another call in between none is lost.
  unfoldable pub send_request :
      ℕ
      → Facts
      → ℕ
      → ConnectionPlan
      → SendConnectionRequestInput
      → SendDraw
      → ℕ
      → M (State w c f) SendConnectionRequestResult
  unfolding send_request_or
  send_request zero facts sender plan input draw now =
      throw (app_error ErrorClass.internal_app_error ErrorCode.internal_error)
  send_request (suc fuel) facts sender plan input draw now =
      send_request_or (send_request fuel facts sender plan input draw now) facts sender plan input
        draw now
