-- ===== src/Connections/Sending/Final.antt =====
-- An answer to a request is final, whatever calls of the connections module follow, sendRequest and
-- its mutual acceptance included (connections.service.ts, connections.repository.ts).
use convene.Common.{
  ℕ, ◌≡◌, refl, ap, ◌∙◌, inl, inr, false, some, List, [], ◌∷◌, arith, find_first,
  find_first-update_kept, find_first-insert,
}
use convene.Errors.{ok}
use convene.Infra.Redis.{Redis}
use convene.Infra.Redis.Counters.{Counters}
use convene.RateLimit.Window.{SortedSets}
use convene.Connections.{accepted, Request, Db, is_pending, is_pending_id, is_id}
use convene.Connections.Requests.{CreateConnectionRequestInput, Draw, answered, new_request}
use convene.Connections.Mutual.{MutualAccept, accept_mutual_requests, accepted_request}
use convene.Connections.Answers.{step-answered}
use convene.Connections.Quota.{ConnectionPlan}
use convene.Connections.Sending.{Facts, SendConnectionRequestInput, SendDraw, create_input}
use convene.Connections.Sending.Checks.{State}
use convene.Connections.Sending.Flow.{send_request}
use convene.Connections.Sending.Outcomes.{send_request-Throws}
use convene.Connections.Sending.Answering.{call_of}
use convene.Connections.Sending.History.{
  mutual-requests, created-requests, Event, sends, answers, step, run,
}

mutual-kept :
    (draw : Draw) (id : ℕ) (input : CreateConnectionRequestInput) (now k : ℕ) (db : Db)
    {m : MutualAccept} {after : Db} {r : Request}
    → accept_mutual_requests draw id input now db ≡ (ok (some m), after)
    → find_first (is_id k) db.requests ≡ some r
    → is_pending r.status ≡ false
    → find_first (is_id k) after.requests ≡ some r
mutual-kept draw id input now k db {r = r} made e done =
    let rows = mutual-requests draw id input now db made in
    let kept =
      find_first-update_kept (is_id k) (is_pending_id id) (answered accepted now) db.requests
        {a = r} (λ x. refl) e (ground arith) in
    ap (find_first (is_id k)) rows
    ∙ find_first-insert (is_id k) (accepted_request draw.request input now) _ {a = r} kept

module _ (w : SortedSets) (c : Counters) (f : Redis ℕ) where
  send-kept :
      (facts : Facts) (sender : ℕ) (plan : ConnectionPlan) (input : SendConnectionRequestInput)
      (draw : SendDraw) (now k : ℕ) (s : State w c f) {r : Request}
      → find_first (is_id k) s.db.requests ≡ some r
      → is_pending r.status ≡ false
      → find_first (is_id k) (send_request w c f 1 facts sender plan input draw now s).1.db.requests
        ≡ some r
  send-kept facts sender plan input draw now k s {r = r} e done =
      elim (send_request-Throws w c f facts sender plan input draw now s) [
        | inl (x, q, same) ↦ ap (λ d. find_first (is_id k) d.requests) same ∙ e
        | inr (sendable, inl (none_back, limits, (queued, a, ok_to, status, made))) ↦
            let input' = create_input sender input queued in
            ap (find_first (is_id k))
              (created-requests w c f draw.rows.request input' now s.db made)
            ∙ find_first-insert (is_id k) (new_request draw.rows.request input' now) s.db.requests
                {a = r} e
        | inr (sendable, inr (back, found, (m, after, made, ok_to, told))) ↦
            ap (λ d. find_first (is_id k) d.requests) told
            ∙ mutual-kept draw.rows back.id (create_input sender input false) now k s.db {r = r}
                made e done
      ]

  -- An answer is final: a request that was accepted, rejected, withdrawn or expired stays as it is,
  -- whatever calls follow, in any order: sends, which accept a request of the other way where one is
  -- pending, answers, expiries and blocks.
  pub run-answered :
      (events : List (ℕ × Event w c f)) (s : State w c f) (k : ℕ) (r : Request)
      → find_first (is_id k) s.db.requests ≡ some r
      → is_pending r.status ≡ false
      → find_first (is_id k) (run w c f events s).db.requests ≡ some r
  unfolding run step
  run-answered [] s k r e done = e
  run-answered ((now, sends facts sender plan input draw) ∷ rest) s k r e done =
      run-answered rest (send_request w c f 1 facts sender plan input draw now s).1 k r
        (send-kept facts sender plan input draw now k s {r = r} e done) done
  run-answered ((now, answers a) ∷ rest) s k r e done =
      run-answered rest (step w c f now (answers a) s) k r
        (step-answered (call_of a now) s.db k {r = r} e done) done
