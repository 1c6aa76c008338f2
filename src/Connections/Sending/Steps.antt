-- ===== src/Connections/Sending/Steps.antt =====
-- What each step of sendRequest leaves of the database.
use convene.Common.{
  ℕ, ◌≡◌, ◌≢◌, refl, sym, ap, subst, ◌∙◌, ◌⊎◌, inl, inr, Bool, Option, none, some, List, [], ◌∷◌,
  arith, ◌==◌, find_first, Bool-cases, Option-cases, if◌then◌else◌,
}
use convene.Errors.{
  M, Result, ok, err, AppError, Result-cases, bind-cases, app_error, ErrorClass, ErrorCode, ◌>>=◌,
  ◌>>◌,
}
use convene.Infra.Redis.{Redis}
use convene.Infra.Redis.Counters.{Counters}
use convene.RateLimit.Window.{SortedSets}
use convene.Connections.{accepted, Request, Db, is_pending_id, is_pending_between}
use convene.Connections.Requests.{CreateConnectionRequestInput, Draw, create_request, answered}
use convene.Connections.Cooldown.{assert_no_cooldown}
use convene.Connections.Mutual.{
  MutualAccept, accept_mutual_requests, accepted_request, resolve_mutual,
}
use convene.Connections.Quota.{ConnectionPlan, DailyQuota}
use convene.Connections.Sending.{
  SendConnectionRequestInput, Facts, SendDraw, SendConnectionRequestResult, create_input,
}
use convene.Connections.Sending.Checks.{
  State, assert_sendable, assert_not_soft_blocked, assert_note_not_spam, assert_velocity_allowed,
  assert_daily_quota_allowed, throttle_of,
}
use convene.Connections.Sending.Flow.{insert_request, send_pending}

-- A pending row that one search finds, another by its id finds too.
pub pending_found :
    (sender recipient id : ℕ) (rows : List Request) {r : Request}
    → find_first (is_pending_between sender recipient) rows ≡ some r
    → r.id ≡ id
    → find_first (is_pending_id id) rows ≢ none
pending_found sender recipient id [] e i = cc
pending_found sender recipient id (x ∷ xs) {r = r} e i =
    ground (arith, pending_found sender recipient id xs {r = r})

abbrev pub internal : AppError
internal = app_error ErrorClass.internal_app_error ErrorCode.internal_error

pub accept_mutual-cases :
    (draw : Draw) (id : ℕ) (input : CreateConnectionRequestInput) (now : ℕ) (db : Db)
    → find_first (is_pending_id id) db.requests ≢ none
    → let out = accept_mutual_requests draw id input now db in
      (out ≡ (err internal, db)) ⊎ ((m : MutualAccept) × (out ≡ (ok (some m), out.1)))
unfolding accept_mutual_requests
accept_mutual-cases draw id input now db n =
    elim (Option-cases (find_first (is_pending_id id) db.requests)) [
      | inl e ↦ absurd (n e)
      | inr (r, e) ↦ elim (Bool-cases (input.sender_id == input.recipient_id)) [
        | inl t ↦ inl (ground arith)
        | inr k ↦ inr (
          record {
            connection =
                (resolve_mutual draw.connection (answered accepted now r)
                  (accepted_request draw.request input now) now db.connections).0;
            new_request = accepted_request draw.request input now;
            existing_request = answered accepted now r;
          },
          ground arith,
        )
      ]
    ]

module _ (w : SortedSets) (c : Counters) (f : Redis ℕ) where
  -- The checks before the first write only read.
  pub assert_sendable-reads :
      (facts : Facts) (sender : ℕ) (input : SendConnectionRequestInput) (now : ℕ) (s : State w c f)
      → (assert_sendable w c f facts sender input now s).1 ≡ s
  unfolding assert_sendable assert_no_cooldown
  assert_sendable-reads facts sender input now s = ground arith

  note-db :
      (facts : Facts) (sender : ℕ) (text : Option (List ℕ)) (now : ℕ) (s : State w c f)
      → (assert_note_not_spam w c f facts sender text now s).1.db ≡ s.db
  unfolding assert_note_not_spam
  note-db facts sender text now s = ground arith

  velocity-db :
      (facts : Facts) (sender : ℕ) (plan : ConnectionPlan) (now member : ℕ) (s : State w c f)
      → (assert_velocity_allowed w c f facts sender plan now member s).1.db ≡ s.db
  unfolding assert_velocity_allowed
  velocity-db facts sender plan now member s = ground arith

  daily-db :
      (facts : Facts) (sender : ℕ) (plan : ConnectionPlan) (now : ℕ) (s : State w c f)
      → (assert_daily_quota_allowed w c f facts sender plan now s).1.db ≡ s.db
  unfolding assert_daily_quota_allowed
  daily-db facts sender plan now s = ground arith

  create_request-throws :
      (id : ℕ) (input : CreateConnectionRequestInput) (now : ℕ) (db : Db) {e : AppError}
      → (create_request id input now db).0 ≡ err e
      → (create_request id input now db).1 ≡ db
  unfolding create_request
  create_request-throws id input now db h = ground arith

  -- A call that throws leaves the database as it was.
  abbrev pub Throws : Db → Result SendConnectionRequestResult × State w c f → Type 0
  Throws db r = (e : AppError) × (r.0 ≡ err e) × (r.1.db ≡ db)

  -- One insert, and the status of a queued request or another.
  abbrev pub Inserted :
      Draw
      → ℕ
      → SendConnectionRequestInput
      → ℕ
      → Db
      → Result SendConnectionRequestResult × State w c f
      → Type 0
  Inserted draw sender input now db r =
      (q : Bool) × (a : SendConnectionRequestResult) × (r.0 ≡ ok a)
      × (a.status ≡ (if q then 202 else 201))
      × (create_request draw.request (create_input sender input q) now db ≡ (ok a.request, r.1.db))

  abbrev pub Inserts :
      Draw
      → ℕ
      → SendConnectionRequestInput
      → ℕ
      → Db
      → Result SendConnectionRequestResult × State w c f
      → Type 0
  Inserts draw sender input now db r = Throws db r ⊎ Inserted draw sender input now db r

  insert_request-Inserts :
      (facts : Facts) (sender : ℕ) (input : SendConnectionRequestInput) (draw : SendDraw) (now : ℕ)
      (quota : DailyQuota) (s : State w c f)
      → Inserts draw.rows sender input now s.db
          (insert_request w c f facts sender input draw now quota s)
  unfolding insert_request
  insert_request-Inserts facts sender input draw now quota s =
      elim (Result-cases (
        create_request draw.rows.request (create_input sender input (queued_of facts s)) now
          s.db)) [
            | inl (e, q) ↦ inl (
              e,
              ground arith,
              ground (
                arith,
                create_request-throws draw.rows.request
                    (create_input sender input (queued_of facts s)) now s.db {e = e},
              ),
            )
            | inr (r, q) ↦ inr (
              queued_of facts s,
              record {
                status = if queued_of facts s then 202 else 201;
                request = r;
                quota = quota;
                queued_position = (throttle_of w c f facts input.recipient_id now s.db).1;
              },
              ground arith,
              refl,
              ground arith,
            )
          ]
    where
      queued_of : Facts → State w c f → Bool
      queued_of facts s = (throttle_of w c f facts input.recipient_id now s.db).0

  -- A step that leaves the database alone.
  chain-Inserts :
      {A : Type 0} (draw : Draw) (sender : ℕ) (input : SendConnectionRequestInput) (now : ℕ)
      (m : M (State w c f) A) (k : A → M (State w c f) SendConnectionRequestResult)
      → ((s : State w c f) → (m s).1.db ≡ s.db)
      → ((a : A) (s : State w c f) → Inserts draw sender input now s.db (k a s))
      → (s : State w c f) → Inserts draw sender input now s.db ((m >>= k) s)
  chain-Inserts draw sender input now m k keep rest s =
      bind-cases (λ r. Inserts draw sender input now s.db r) m k s
        (λ e t q. inl (e, refl, sym (ap (λ x. x.1.db) q) ∙ keep s))
        (λ a t q.
          subst (λ d. Inserts draw sender input now d (k a t)) (sym (ap (λ x. x.1.db) q) ∙ keep s)
            (rest a t))

  pub send_pending-Inserts :
      (facts : Facts) (sender : ℕ) (plan : ConnectionPlan) (input : SendConnectionRequestInput)
      (draw : SendDraw) (now : ℕ) (s : State w c f)
      → Inserts draw.rows sender input now s.db
          (send_pending w c f facts sender plan input draw now s)
  unfolding send_pending
  send_pending-Inserts facts sender plan input draw now =
      let quota = assert_daily_quota_allowed w c f facts sender plan now in
      let velocity = assert_velocity_allowed w c f facts sender plan now draw.member in
      let note = assert_note_not_spam w c f facts sender input.note now in
      let last = insert_request w c f facts sender input draw now in
      let chain = λ (A : Type 0). chain-Inserts {A = A} draw.rows sender input now in
      chain (Unit {0}) (assert_not_soft_blocked w c f facts sender now)
        (λ _. note >> (velocity >> (quota >>= last))) (λ t. ground arith)
        λ _.
          chain (Unit {0}) note (λ _. velocity >> (quota >>= last))
            (note-db facts sender input.note now)
            λ _.
              chain (Unit {0}) velocity (λ _. quota >>= last)
                (velocity-db facts sender plan now draw.member)
                λ _.
                  chain DailyQuota quota last (daily-db facts sender plan now)
                    (λ q t. insert_request-Inserts facts sender input draw now q t)
