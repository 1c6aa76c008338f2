-- ===== src/Connections/Sending/Outcomes.antt =====
-- What a call of sendRequest that does not throw has met and written (connections.service.ts).
use convene.Common.{
  ℕ, ◌≤◌, ◌≡◌, ◌≢◌, refl, ◌⊎◌, inl, inr, Bool, true, false, ◌&&◌, Option, none, some, ◌+◌, ◌*◌, leb,
  ltb, arith, ==_refl, find_first, is_some, Option-cases,
}
use convene.Errors.{M, Result, ok, Result-cases, throw}
use convene.Infra.Redis.{Redis}
use convene.Infra.Redis.Counters.{Counters}
use convene.RateLimit.Window.{SortedSets}
use convene.Matching.Gates.{check_intent_floor}
use convene.TrustSafety
use convene.Connections.{
  RequestStatus, pending, accepted, rejected, cancelled, expired, Request, Db, is_pending_between,
}
use convene.Connections.Requests.{Draw, is_blocked_either_way, find_active_connection_between}
use convene.Connections.Cooldown.{
  assert_no_cooldown, day_ms, find_most_recent_removal, find_most_recent_terminal_request,
  count_rejected_requests,
}
use convene.Connections.Service.{notify}
use convene.Connections.Mutual.{MutualAccept, accept_mutual_requests}
use convene.Connections.Quota.{ConnectionPlan}
use convene.Connections.Sending.{
  SendConnectionRequestInput, Facts, SendDraw, SendConnectionRequestResult, is_active_user,
  create_input, check_facts,
}
use convene.Connections.Sending.Checks.{State, assert_sendable, lets_in}
use convene.Connections.Sending.Flow.{
  send_pending, mutual_result, complete_mutual_accept, send_request_or, send_request,
}
use convene.Connections.Sending.Limits.{IsWithinLimits, send_pending-IsWithinLimits}
use convene.Connections.Sending.Admission.{IsAdmitted, check_inbound-IsAdmitted}
use convene.Connections.Sending.Steps.{
  internal, pending_found, accept_mutual-cases, assert_sendable-reads, Throws, Inserted,
  send_pending-Inserts,
}

-- The waits as they are meant: a week after a removal, and after a terminal request a day, a week or
-- thirty days, with no third request to someone who has rejected two.
abbrev pub is_past_removal : Option ℕ → ℕ → Bool
is_past_removal none now = true
is_past_removal (some at) now = leb (at + 7 * day_ms) now

abbrev pub is_past_answer : RequestStatus → ℕ → ℕ → ℕ → Bool
is_past_answer rejected rejections since now = ltb rejections 2 && leb (since + 30 * day_ms) now
is_past_answer expired rejections since now = leb (since + 7 * day_ms) now
is_past_answer cancelled rejections since now = leb (since + 1 * day_ms) now
is_past_answer pending rejections since now = true
is_past_answer accepted rejections since now = true

abbrev pub is_past_terminal : Option Request → ℕ → ℕ → Bool
is_past_terminal none rejections now = true
is_past_terminal (some r) rejections now = elim r.responded_at [
  | none ↦ true
  | some since ↦ is_past_answer r.status rejections since now
]

-- The sender's intent is active, and the recipient's filter lets the sender in with it.
abbrev pub Admits : Facts → ℕ → SendConnectionRequestInput → Type 0
Admits facts sender input =
    (intent : ℕ) × (facts.owned_active_intent sender input.intent_id ≡ some intent)
    × IsAdmitted (facts.inbound_filter input.recipient_id)
        (check_facts intent (facts.scoring_fields sender))

module _ (w : SortedSets) (c : Counters) (f : Redis ℕ) where
  -- What the checks before the first write have established.
  abbrev pub IsSendable : Facts → ℕ → SendConnectionRequestInput → ℕ → Db → Type 0
  IsSendable facts sender input now db =
      (input.recipient_id ≢ sender)
      × (facts.user_status input.recipient_id ≡ some TrustSafety.active)
      × (is_blocked_either_way sender input.recipient_id db ≡ false)
      × (is_some (facts.owned_active_intent sender input.intent_id) ≡ true)
      × (find_active_connection_between sender input.recipient_id db ≡ none)
      × (find_first (is_pending_between sender input.recipient_id) db.requests ≡ none)
      × (is_past_removal (find_most_recent_removal sender input.recipient_id db) now ≡ true)
      × (is_past_terminal (find_most_recent_terminal_request sender input.recipient_id db)
            (count_rejected_requests sender input.recipient_id db) now
          ≡ true)
      × (20 ≤ facts.intent_score sender input.recipient_id)
      × Admits facts sender input

  active_user :
      (o : Option TrustSafety.UserStatus) → is_active_user o ≡ true → o ≡ some TrustSafety.active
  active_user none h = cc
  active_user (some TrustSafety.pending_verification) h = cc
  active_user (some TrustSafety.active) h = refl
  active_user (some TrustSafety.restricted) h = cc
  active_user (some TrustSafety.shadow_limited) h = cc
  active_user (some TrustSafety.suspended) h = cc
  active_user (some TrustSafety.deleted) h = cc

  assert_sendable-lets_in :
      (facts : Facts) (sender : ℕ) (input : SendConnectionRequestInput) (now : ℕ) (s : State w c f)
      → (assert_sendable w c f facts sender input now s).0 ≡ ok tt
      → elim (facts.owned_active_intent sender input.intent_id) [
        | none ↦ false
        | some intent ↦ lets_in facts sender input.recipient_id intent
      ]
        ≡ true
  unfolding assert_sendable assert_no_cooldown
  assert_sendable-lets_in facts sender input now s h = ground arith

  lets_in-Admits :
      (facts : Facts) (sender recipient : ℕ) (o : Option ℕ)
      → elim o [ none ↦ false | some intent ↦ lets_in facts sender recipient intent ] ≡ true
      → (intent : ℕ) × (o ≡ some intent)
        × IsAdmitted
            (facts.inbound_filter recipient)
            (check_facts intent (facts.scoring_fields sender))
  unfolding lets_in
  lets_in-Admits facts sender recipient none h = absurd (ground arith)
  lets_in-Admits facts sender recipient (some intent) h = (
    intent,
    refl,
    check_inbound-IsAdmitted (facts.inbound_filter recipient)
        (check_facts intent (facts.scoring_fields sender)) h,
  )

  above_floor : (score : ℕ) → check_intent_floor score ≡ false → 20 ≤ score
  unfolding check_intent_floor
  above_floor score h = ground arith

  pub assert_sendable-IsSendable :
      (facts : Facts) (sender : ℕ) (input : SendConnectionRequestInput) (now : ℕ) (s : State w c f)
      → (assert_sendable w c f facts sender input now s).0 ≡ ok tt
      → IsSendable facts sender input now s.db
  unfolding assert_sendable assert_no_cooldown
  assert_sendable-IsSendable facts sender input now s h = (
    (λ e. ground (arith, ==_refl sender)),
    active_user (facts.user_status input.recipient_id) (ground arith),
    ground arith,
    ground arith,
    ground arith,
    ground arith,
    ground arith,
    ground arith,
    above_floor (facts.intent_score sender input.recipient_id) (ground arith),
    lets_in-Admits facts sender input.recipient_id
        (facts.owned_active_intent sender input.intent_id)
        (assert_sendable-lets_in facts sender input now s h),
  )

  -- Both requests are accepted in one transaction, and both users told.
  abbrev pub Accepts :
      Draw
      → Request
      → ℕ
      → SendConnectionRequestInput
      → ℕ
      → Db
      → Result SendConnectionRequestResult × State w c f
      → Type 0
  Accepts draw reverse sender input now db r =
      (m : MutualAccept) × (after : Db) × (accept_mutual_requests draw reverse.id
          (create_input sender input false) now db
        ≡ (ok (some m), after))
      × (r.0 ≡ ok (mutual_result w c f now m))
      × (r.1.db ≡ notify m.existing_request.sender_id (notify m.new_request.sender_id after))

  complete-Accepts :
      (again : M (State w c f) SendConnectionRequestResult) (r : Request) (sender : ℕ)
      (input : SendConnectionRequestInput) (draw : SendDraw) (now : ℕ) (s : State w c f)
      → find_first (is_pending_between input.recipient_id sender) s.db.requests ≡ some r
      → let out = complete_mutual_accept w c f again r sender input draw now s in
        Throws w c f s.db out ⊎ Accepts draw.rows r sender input now s.db out
  unfolding complete_mutual_accept
  complete-Accepts again r sender input draw now s e =
      let out = accept_mutual_requests draw.rows r.id (create_input sender input false) now s.db in
      elim (accept_mutual-cases draw.rows r.id (create_input sender input false) now s.db
        (pending_found input.recipient_id sender r.id s.db.requests {r = r} e refl)) [
          | inl thrown ↦ inl (internal, ground arith, ground arith)
          | inr (m, done) ↦ inr (m, out.1, done, ground arith, ground arith)
        ]

  -- A call that does not throw has passed the checks, and inserts one request or accepts two.
  pub send_request-Throws :
      (facts : Facts) (sender : ℕ) (plan : ConnectionPlan) (input : SendConnectionRequestInput)
      (draw : SendDraw) (now : ℕ) (s : State w c f)
      → let out = send_request w c f 1 facts sender plan input draw now s in
        Throws w c f s.db out
        ⊎ (IsSendable facts sender input now s.db
            × (((find_first (is_pending_between input.recipient_id sender) s.db.requests ≡ none)
                  × IsWithinLimits w c f facts sender plan input.note now s
                  × Inserted w c f draw.rows sender input now s.db out)
                ⊎ ((r : Request) × (find_first
                        (is_pending_between input.recipient_id sender)
                        s.db.requests
                      ≡ some r)
                    × Accepts draw.rows r sender input now s.db out)))
  unfolding send_request send_request_or
  send_request-Throws facts sender plan input draw now s =
      let reads = assert_sendable-reads w c f facts sender input now s in
      elim (Result-cases (assert_sendable w c f facts sender input now s)) [
        | inl (e, q) ↦ inl (e, ground arith, ground arith)
        | inr (u, q) ↦
            let checked = assert_sendable-IsSendable facts sender input now s (ground arith) in
            elim (Option-cases
              (find_first (is_pending_between input.recipient_id sender) s.db.requests)) [
                | inl n ↦
                    let same : send_request_or w c f (throw internal) facts sender plan input draw
                          now s
                        ≡ send_pending w c f facts sender plan input draw now s =
                      ground arith in
                    rw same (elim (send_pending-Inserts w c f facts sender plan input draw now s) [
                      | inl t ↦ inl t
                      | inr i ↦
                          let limits =
                            send_pending-IsWithinLimits w c f facts sender plan input draw now s
                              {a = i.1} i.2 in
                          inr (checked, inl (n, limits, i))
                    ])
                | inr (r, e) ↦
                    let same : send_request_or w c f (throw internal) facts sender plan input draw
                          now s
                        ≡ complete_mutual_accept w c f (throw internal) r sender input draw now s =
                      ground arith in
                    rw same (elim (complete-Accepts (throw internal) r sender input draw now s e) [
                      | inl t ↦ inl t
                      | inr i ↦ inr (checked, inr (r, e, i))
                    ])
              ]
      ]
