-- ===== src/Connections/Sending/History.antt =====
-- Any sequence of calls of the connections module, sendRequest with all its checks included, in the
-- order of their times.
use convene.Common.{
  ℕ, ◌≤◌, ◌<◌, ◌≡◌, refl, sym, ap, subst, inl, inr, false, some, List, [], ◌∷◌, arith, All-insert,
  count, count-update-le, find_first, update_where, insert, Option-cases,
}
use convene.Errors.{ok}
use convene.Infra.Redis.{Redis}
use convene.Infra.Redis.Counters.{Counters}
use convene.RateLimit.Window.{SortedSets}
use convene.Connections.{accepted, Request, Db, is_pending, is_pending_id}
use convene.Connections.Requests.{
  CreateConnectionRequestInput, Draw, answered, new_request, create_request,
}
use convene.Connections.Service.{notify}
use convene.Connections.Cooldown.{
  is_rejected_between, is_rejected, is_terminal, responded, count_rejected_requests,
}
use convene.Connections.Mutual.{MutualAccept, accept_mutual_requests, accepted_request}
use convene.Connections.Pairs.{Paired, create_request-Paired, answer-Paired}
use convene.Connections.History
use convene.Connections.Quota.{ConnectionPlan}
use convene.Connections.Sending.{Facts, SendConnectionRequestInput, SendDraw, create_input}
use convene.Connections.Sending.Checks.{State}
use convene.Connections.Sending.Flow.{send_request}
use convene.Connections.Sending.Outcomes.{IsSendable, send_request-Throws}
use convene.Connections.Sending.Retries.{IsFair, AnsweredBy, inserted-IsFair}
use convene.Connections.Sending.Refusal.{Final-refused}
use convene.Connections.Sending.MutualPairs.{accept_mutual-Paired}
use convene.Connections.Sending.Answering.{Answer, call_of, Inv, answer-Inv, answered-Inv}

-- Inserts of a row that is pending only for a pair with one rejection at most.
insert-Inv :
    (now : ℕ) (new : Request) (db db' : Db)
    → db'.requests ≡ insert new db.requests
    → Paired db'
    → responded new ≤ now
    → is_terminal new.status ≡ false
    → is_rejected new.status ≡ false
    → (count (is_rejected_between new.sender_id new.recipient_id) db.requests ≤ 1)
    → Inv now db
    → Inv now db'
insert-Inv now new db db' same paired at t j few v = record {
  paired = paired;
  past =
      subst (AnsweredBy now) (sym same)
        (All-insert (λ x. responded x ≤ now) new db.requests v.past at);
  fair = λ s r. subst (IsFair s r) (sym same) (
      inserted-IsFair s r new db.requests t j
        (λ h.
          let first : new.sender_id ≡ s = ground arith in
          let second : new.recipient_id ≡ r = ground arith in
          subst (λ y. count (is_rejected_between s y) db.requests ≤ 1) second
            (subst (λ x. count (is_rejected_between x new.recipient_id) db.requests ≤ 1) first few))
        (v.fair s r));
}

later-Inv : (last now : ℕ) (db : Db) → last < now → Inv last db → Inv now db
later-Inv last now db lt v = answered-Inv last now db db lt (inl refl) v.paired v.paired v

notify-Inv : (now user : ℕ) (db : Db) → Inv now db → Inv now (notify user db)
unfolding Paired
notify-Inv now user db v = record { paired = v.paired; past = v.past; fair = v.fair }

pub mutual-requests :
    (draw : Draw) (id : ℕ) (input : CreateConnectionRequestInput) (now : ℕ) (db : Db)
    {m : MutualAccept} {after : Db}
    → accept_mutual_requests draw id input now db ≡ (ok (some m), after)
    → after.requests
      ≡ insert
          (accepted_request draw.request input now)
          (update_where (is_pending_id id) (answered accepted now) db.requests)
unfolding accept_mutual_requests
mutual-requests draw id input now db e =
    elim (Option-cases (find_first (is_pending_id id) db.requests)) [
      | inl n ↦ absurd (ground arith)
      | inr (r, f) ↦ ground arith
    ]

accepted_done : is_pending accepted ≡ false
unfolding is_pending
accepted_done = refl

mutual-Inv :
    (draw : Draw) (id : ℕ) (input : CreateConnectionRequestInput) (last now : ℕ) (db : Db)
    {m : MutualAccept} {after : Db}
    → accept_mutual_requests draw id input now db ≡ (ok (some m), after)
    → last < now
    → count (is_rejected_between input.sender_id input.recipient_id) db.requests ≤ 1
    → Inv last db
    → Inv now after
mutual-Inv draw id input last now db {after = after} made lt few v =
    let rows = update_where (is_pending_id id) (answered accepted now) db.requests in
    let mid : Db = record db { requests = rows } in
    let agreed = answer-Paired accepted now (is_pending_id id) db accepted_done v.paired in
    let answered_Inv =
      answered-Inv last now db mid lt
        (inr (is_pending_id id, accepted, (λ x t. ground arith), accepted_done, refl)) agreed
        v.paired v in
    let fewer =
      count-update-le (is_rejected_between input.sender_id input.recipient_id) (is_pending_id id)
        (answered accepted now) db.requests (λ x t q. absurd (ground arith)) in
    insert-Inv now (accepted_request draw.request input now) mid after
      (mutual-requests draw id input now db made)
      (subst Paired (ap (λ x. x.1) made) (accept_mutual-Paired draw id input now db v.paired))
      (omega arith) refl refl (omega arith) answered_Inv

module _ (w : SortedSets) (c : Counters) (f : Redis ℕ) where
  -- A request that passed the checks goes to someone who has rejected the sender once at most.
  sendable-few :
      (facts : Facts) (sender : ℕ) (input : SendConnectionRequestInput) (last now : ℕ) (db : Db)
      → IsSendable w c f facts sender input now db
      → Inv last db
      → count (is_rejected_between sender input.recipient_id) db.requests ≤ 1
  sendable-few facts sender input last now db sendable v = elim (v.fair sender input.recipient_id) [
    | inl few ↦ few
    | inr (two, free, final) ↦
        absurd (Final-refused sender input.recipient_id now db final two sendable.7)
  ]

  pub created-requests :
      (id : ℕ) (input : CreateConnectionRequestInput) (now : ℕ) (db : Db) {a : Request} {after : Db}
      → create_request id input now db ≡ (ok a, after)
      → after.requests ≡ insert (new_request id input now) db.requests
  unfolding create_request
  created-requests id input now db e = ground arith

  send-Inv :
      (facts : Facts) (sender : ℕ) (plan : ConnectionPlan) (input : SendConnectionRequestInput)
      (draw : SendDraw) (last now : ℕ) (s : State w c f)
      → last < now
      → Inv last s.db
      → Inv now (send_request w c f 1 facts sender plan input draw now s).1.db
  send-Inv facts sender plan input draw last now s lt v =
      let v' = later-Inv last now s.db lt v in
      elim (send_request-Throws w c f facts sender plan input draw now s) [
        | inl (e, q, same) ↦ subst (Inv now) (sym same) v'
        | inr (sendable, inl (none_back, limits, (queued, a, done, status, made))) ↦
            insert-Inv now (new_request draw.rows.request (create_input sender input queued) now)
              s.db _
              (created-requests draw.rows.request (create_input sender input queued) now s.db made)
              (subst Paired (ap (λ x. x.1) made) (
                create_request-Paired draw.rows.request (create_input sender input queued) now s.db
                  v.paired))
              (omega arith) refl refl (sendable-few facts sender input last now s.db sendable v) v'
        | inr (sendable, inr (r, back, (m, after, made, done, told))) ↦
            let told_Inv = notify-Inv now m.existing_request.sender_id _ (
              notify-Inv now m.new_request.sender_id after (
                mutual-Inv draw.rows r.id (create_input sender input false) last now s.db made lt
                  (sendable-few facts sender input last now s.db sendable v) v)) in
            subst (Inv now) (sym told) told_Inv
      ]

  pub data Event : Type 0 where
    sends : Facts → ℕ → ConnectionPlan → SendConnectionRequestInput → SendDraw → Event
    answers : Answer → Event

  unfoldable pub step : ℕ → Event → State w c f → State w c f
  step now (sends facts sender plan input draw) s =
      (send_request w c f 1 facts sender plan input draw now s).1
  step now (answers a) s = record s { db = History.step s.db (call_of a now) }

  unfoldable pub run : List (ℕ × Event) → State w c f → State w c f
  run [] s = s
  run ((now, event) ∷ rest) s = run rest (step now event s)

  -- Each event is later than the one before.
  abbrev pub IsOrdered : ℕ → List (ℕ × Event) → Type 0
  IsOrdered last [] = Unit
  IsOrdered last ((now, event) ∷ rest) = (last < now) × IsOrdered now rest

  step-Inv :
      (last now : ℕ) (event : Event) (s : State w c f)
      → last < now
      → Inv last s.db
      → Inv now (step now event s).db
  unfolding step
  step-Inv last now (sends facts sender plan input draw) s lt v =
      send-Inv facts sender plan input draw last now s lt v
  step-Inv last now (answers a) s lt v = answer-Inv a last now s.db lt v

  run-fair :
      (last : ℕ) (events : List (ℕ × Event)) (s : State w c f)
      → IsOrdered last events
      → Inv last s.db
      → (sender recipient : ℕ) → count_rejected_requests sender recipient (run events s).db ≤ 2
  unfolding run count_rejected_requests
  run-fair last [] s o v sender recipient = elim (v.fair sender recipient) [
    | inl few ↦ omega arith
    | inr (two, free, final) ↦ omega arith
  ]
  run-fair last ((now, event) ∷ rest) s o v sender recipient =
      run-fair now rest (step now event s) o.1 (step-Inv last now event s o.0 v) sender recipient

  -- Over any sequence of calls in the order of their times, from tables that agree and hold no request,
  -- nobody rejects more than two requests of the same sender.
  pub run-rejections :
      (events : List (ℕ × Event)) (s : State w c f) (sender recipient : ℕ)
      → s.db.requests ≡ []
      → Paired s.db
      → IsOrdered 0 events
      → count_rejected_requests sender recipient (run events s).db ≤ 2
  run-rejections events s sender recipient empty paired o =
      run-fair 0 events s o
        (record { paired = paired; past = rw empty tt; fair = λ s r. rw empty (inl (omega arith)) })
        sender recipient
