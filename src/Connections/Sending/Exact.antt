-- ===== src/Connections/Sending/Exact.antt =====
-- The checks of sendRequest stop no request that is sendable (connections.service.ts,
-- inbound-filters.service.ts).
use convene.Common.{
  ℕ, ◌≤◌, ◌≡◌, refl, inl, inr, true, false, none, some, Option, List, [], ◌∷◌, arith, ◌==◌, ==_iff,
  Bool-cases, Option-cases,
}
use convene.Errors.{ok}
use convene.Infra.Redis.{Redis}
use convene.Infra.Redis.Counters.{Counters}
use convene.RateLimit.Window.{SortedSets}
use convene.Matching.Gates.{check_intent_floor}
use convene.Connections.{
  RequestStatus, pending, accepted, rejected, cancelled, expired, Db, Request,
}
use convene.Connections.Cooldown.{
  assert_no_cooldown, assert_past_removal, assert_past_request, assert_past_terminal,
  find_most_recent_removal, find_most_recent_terminal_request, count_rejected_requests,
}
use convene.Connections.Inbound.{
  InboundIntentFilter, InboundCheckFacts, check_inbound, leaves_out, below, above,
}
use convene.Connections.Sending.{Facts, SendConnectionRequestInput, check_facts}
use convene.Connections.Sending.Checks.{State, assert_sendable, lets_in}
use convene.Connections.Sending.Admission.{IsListed, IsAdmitted}
use convene.Connections.Sending.Outcomes.{
  IsSendable, is_past_removal, is_past_answer, is_past_terminal,
}

IsListed-leaves_out :
    (list : Option (List ℕ)) (x : Option ℕ) → IsListed list x → leaves_out list x ≡ false
IsListed-leaves_out none x h = refl
IsListed-leaves_out (some []) x h = refl
IsListed-leaves_out (some (y ∷ ys)) x (v, e, has) = ground arith

below_of : (o : Option ℕ) (x : ℕ) → ((years : ℕ) → o ≡ some years → years ≤ x) → below o x ≡ false
below_of none x h = refl
below_of (some t) x h = let le = h t refl in ground arith

above_of : (o : Option ℕ) (x : ℕ) → ((years : ℕ) → o ≡ some years → x ≤ years) → above o x ≡ false
above_of none x h = refl
above_of (some t) x h = let le = h t refl in ground arith

IsAdmitted-check_inbound :
    (filter : Option InboundIntentFilter) (facts : InboundCheckFacts)
    → IsAdmitted filter facts
    → check_inbound filter facts ≡ true
unfolding check_inbound
IsAdmitted-check_inbound none facts h = refl
IsAdmitted-check_inbound (some row) facts h =
    let intents = IsListed-leaves_out row.accepted_intents (some facts.intent_type) h.intent in
    let least = below_of row.min_experience_years facts.years_experience h.least in
    let most = above_of row.max_experience_years facts.years_experience h.most in
    let industry = IsListed-leaves_out row.industry_ids facts.industry_id h.industry in
    let verified = h.verified in
    elim (Bool-cases row.verified_only) [
      | inl t ↦ let level = verified t in ground arith
      | inr f ↦ ground arith
    ]

removal_over :
    {S : Type 0} (o : Option ℕ) (now : ℕ) (s : S)
    → is_past_removal o now ≡ true
    → assert_past_removal o now s ≡ (ok tt, s)
removal_over none now s h = refl
removal_over (some at) now s h = ground arith

answer_over :
    {S : Type 0} (status : RequestStatus) (rejections since now : ℕ) (s : S)
    → is_past_answer status rejections since now ≡ true
    → assert_past_request status rejections since now s ≡ (ok tt, s)
answer_over pending rejections since now s h = refl
answer_over accepted rejections since now s h = refl
answer_over rejected rejections since now s h = ground arith
answer_over cancelled rejections since now s h = ground arith
answer_over expired rejections since now s h = ground arith

terminal_over :
    {S : Type 0} (o : Option Request) (rejections now : ℕ) (s : S)
    → is_past_terminal o rejections now ≡ true
    → assert_past_terminal o rejections now s ≡ (ok tt, s)
terminal_over none rejections now s h = refl
terminal_over (some r) rejections now s h = elim (Option-cases r.responded_at) [
  | inl n ↦ ground arith
  | inr (since, e) ↦
      let over = answer_over r.status rejections since now s (ground arith) in ground arith
]

cooled_down :
    {S : Type 0} (sender recipient now : ℕ) (db : Db) (s : S)
    → is_past_removal (find_most_recent_removal sender recipient db) now ≡ true
    → is_past_terminal
        (find_most_recent_terminal_request sender recipient db)
        (count_rejected_requests sender recipient db)
        now
      ≡ true
    → assert_no_cooldown sender recipient now db s ≡ (ok tt, s)
unfolding assert_no_cooldown
cooled_down sender recipient now db s r t =
    let removal = removal_over (find_most_recent_removal sender recipient db) now s r in
    let terminal =
      terminal_over (find_most_recent_terminal_request sender recipient db)
        (count_rejected_requests sender recipient db) now s t in
    ground arith

floor_met : (score : ℕ) → 20 ≤ score → check_intent_floor score ≡ false
unfolding check_intent_floor
floor_met score h = ground arith

admitted_in :
    (facts : Facts) (sender recipient intent : ℕ)
    → IsAdmitted (facts.inbound_filter recipient) (check_facts intent (facts.scoring_fields sender))
    → lets_in facts sender recipient intent ≡ true
unfolding lets_in
admitted_in facts sender recipient intent h =
    IsAdmitted-check_inbound (facts.inbound_filter recipient)
      (check_facts intent (facts.scoring_fields sender)) h

module _ (w : SortedSets) (c : Counters) (f : Redis ℕ) where
  pub IsSendable-assert_sendable :
      (facts : Facts) (sender : ℕ) (input : SendConnectionRequestInput) (now : ℕ) (s : State w c f)
      → IsSendable w c f facts sender input now s.db
      → (assert_sendable w c f facts sender input now s).0 ≡ ok tt
  unfolding assert_sendable
  IsSendable-assert_sendable facts sender input now s
        (other, active, free, owned, apart, mine, removal, terminal, floor, (intent, e, admitted)) =
      let self : (input.recipient_id == sender) ≡ false =
        elim (Bool-cases (input.recipient_id == sender)) [
          | inl t ↦ absurd (other ((==_iff input.recipient_id sender).0 t))
          | inr n ↦ n
        ] in
      let cool = cooled_down sender input.recipient_id now s.db s removal terminal in
      let score = floor_met (facts.intent_score sender input.recipient_id) floor in
      let inbound = admitted_in facts sender input.recipient_id intent admitted in ground arith
