-- ===== src/Connections/Sending/Once.antt =====
-- sendRequest calls itself after a lost race only.
use convene.Common.{ℕ, suc, ◌≡◌, refl, inl, inr, some, arith, find_first, Option-cases}
use convene.Errors.{M}
use convene.Infra.Redis.{Redis}
use convene.Infra.Redis.Counters.{Counters}
use convene.RateLimit.Window.{SortedSets}
use convene.Connections.{Request, is_pending_between}
use convene.Connections.Mutual.{accept_mutual_requests}
use convene.Connections.Quota.{ConnectionPlan}
use convene.Connections.Sending.{
  SendConnectionRequestInput, Facts, SendDraw, SendConnectionRequestResult,
}
use convene.Connections.Sending.Checks.{State}
use convene.Connections.Sending.Flow.{complete_mutual_accept, send_request_or, send_request}
use convene.Connections.Sending.Steps.{pending_found, assert_sendable-reads}

module _ (w : SortedSets) (c : Counters) (f : Redis ℕ) where
  -- A lost race needs another call in between: the search by the id of the pending row finds it.
  complete-again :
      (again other : M (State w c f) SendConnectionRequestResult) (r : Request) (sender : ℕ)
      (input : SendConnectionRequestInput) (draw : SendDraw) (now : ℕ) (s : State w c f)
      → find_first (is_pending_between input.recipient_id sender) s.db.requests ≡ some r
      → complete_mutual_accept w c f again r sender input draw now s
        ≡ complete_mutual_accept w c f other r sender input draw now s
  unfolding complete_mutual_accept accept_mutual_requests
  complete-again again other r sender input draw now s e =
      ground (arith, pending_found input.recipient_id sender r.id s.db.requests {r = r} e refl)

  send_request_or-again :
      (again other : M (State w c f) SendConnectionRequestResult) (facts : Facts) (sender : ℕ)
      (plan : ConnectionPlan) (input : SendConnectionRequestInput) (draw : SendDraw) (now : ℕ)
      (s : State w c f)
      → send_request_or w c f again facts sender plan input draw now s
        ≡ send_request_or w c f other facts sender plan input draw now s
  unfolding send_request_or
  send_request_or-again again other facts sender plan input draw now s =
      let same = assert_sendable-reads w c f facts sender input now s in
      elim (Option-cases
        (find_first (is_pending_between input.recipient_id sender) s.db.requests)) [
          | inl n ↦ ground arith
          | inr (r, e) ↦ ground (arith, complete-again again other r sender input draw now s e)
        ]

  -- Without another call in between, sendRequest calls itself for no lost race: what it comes to does
  -- not depend on how often it may.
  pub send_request-once :
      (fuel : ℕ) (facts : Facts) (sender : ℕ) (plan : ConnectionPlan)
      (input : SendConnectionRequestInput) (draw : SendDraw) (now : ℕ) (s : State w c f)
      → send_request w c f (suc fuel) facts sender plan input draw now s
        ≡ send_request w c f 1 facts sender plan input draw now s
  unfolding send_request
  send_request-once fuel facts sender plan input draw now s =
      send_request_or-again (send_request w c f fuel facts sender plan input draw now)
        (send_request w c f 0 facts sender plan input draw now) facts sender plan input draw now s
