-- ===== src/Connections/Sending/Checks.antt =====
-- connections.service.ts: the state that `sendRequest` works on, and its checks in their order. The
-- clients of Redis are the section's parameters.
use convene.Common.{
  ℕ, ◌-◌, ◌*◌, Bool, not, Option, List, ◌==◌, find_first, is_some, ceil_seconds, if◌then◌else◌,
}
use convene.Errors.{M, ok, pure, throw_if, or_throw, ◌>>=◌, ◌>>◌}
use convene.Infra.Redis.{Redis}
use convene.Infra.Redis.Counters.{Counters}
use convene.Matching.Gates.{check_intent_floor}
use convene.RateLimit.Window.{SortedSets}
use convene.Connections.{Db, is_pending_between}
use convene.Connections.Requests.{is_blocked_either_way, find_active_connection_between}
use convene.Connections.Service.{pair_blocked}
use convene.Connections.Cooldown.{assert_no_cooldown}
use convene.Connections.Inbound.{check_inbound, effective_cap, resolve_inbound_throttle}
use convene.Connections.Quota.{
  ConnectionPlan, DailyQuota, check_daily_quota, check_velocity, is_soft_blocked, apply_soft_block,
}
use convene.Connections.Quota.Notes.{HistoryEntry, record_note_and_check_duplicate}
use convene.Connections.Sending.{
  SendConnectionRequestInput, Facts, bad_recipient, recipient_not_found, intent_not_found,
  already_connected, already_pending, intent_mismatch, intent_filtered, velocity_limit,
  daily_limit_reached, is_active_user, check_facts, years_of, cap_of,
}

-- `checkInbound` on what is known of the sender.
unfoldable pub lets_in : Facts → ℕ → ℕ → ℕ → Bool
lets_in facts sender recipient intent =
    check_inbound (facts.inbound_filter recipient)
      (check_facts intent (facts.scoring_fields sender))

module _ (w : SortedSets) (c : Counters) (f : Redis ℕ) where
  pub record State : Type 0 where
    pub db : Db
    pub velocity : SortedSets.Store w
    pub daily : Counters.Store c
    pub flags : Redis.Store f
    pub notes : ℕ → List HistoryEntry

  abbrev pub on_db : {A : Type 0} → M Db A → M State A
  on_db m s = let (a, db) = m s.db in (a, record s { db = db })

  abbrev pub reads : {A : Type 0} → (Db → A) → M State A
  reads g s = (ok (g s.db), s)

  -- The checks that every request meets, up to the inbound filter; they write nothing.
  unfoldable pub assert_sendable : Facts → ℕ → SendConnectionRequestInput → ℕ → M State (Unit {0})
  assert_sendable facts sender input now =
      let recipient = input.recipient_id in
      throw_if (recipient == sender) bad_recipient
      >> (throw_if (not (is_active_user (facts.user_status recipient))) recipient_not_found
          >> (reads (is_blocked_either_way sender recipient) >>= λ blocked.
              throw_if blocked pair_blocked
              >> (or_throw (facts.owned_active_intent sender input.intent_id) intent_not_found
                  >>= λ intent.
                      reads (find_active_connection_between sender recipient) >>= λ connected.
                      throw_if (is_some connected) already_connected
                      >> (reads (λ db. find_first (is_pending_between sender recipient) db.requests)
                          >>= λ mine.
                              throw_if (is_some mine) already_pending
                              >> (reads (λ db. db) >>= λ db.
                                  assert_no_cooldown sender recipient now db
                                  >> (throw_if
                                        (check_intent_floor (facts.intent_score sender recipient))
                                        intent_mismatch
                                      >> throw_if (not (lets_in facts sender recipient intent))
                                          intent_filtered))))))

  abbrev pub assert_not_soft_blocked : Facts → ℕ → ℕ → M State (Unit {0})
  assert_not_soft_blocked facts sender now s =
      throw_if (is_soft_blocked f (facts.id_text sender) now s.flags) (velocity_limit (60 * 60)) s

  abbrev set_notes : ℕ → List HistoryEntry → (ℕ → List HistoryEntry) → ℕ → List HistoryEntry
  set_notes user entries notes k = if k == user then entries else notes k

  -- A duplicate soft-blocks the sender before it is refused.
  unfoldable pub assert_note_not_spam : Facts → ℕ → Option (List ℕ) → ℕ → M State (Unit {0})
  assert_note_not_spam facts sender note now s =
      let (duplicate, entries) =
        record_note_and_check_duplicate facts.lower note now (s.notes sender) in
      throw_if duplicate (velocity_limit (60 * 60)) (record s {
        notes = set_notes sender entries s.notes;
        flags =
            if duplicate then apply_soft_block f (facts.id_text sender) now s.flags else s.flags;
      })

  unfoldable pub assert_velocity_allowed : Facts → ℕ → ConnectionPlan → ℕ → ℕ → M State (Unit {0})
  assert_velocity_allowed facts sender plan now member s =
      let (answer, velocity) = check_velocity w (facts.id_text sender) plan now member s.velocity in
      throw_if (not answer.allowed) (velocity_limit 60) (record s { velocity = velocity })

  unfoldable pub assert_daily_quota_allowed : Facts → ℕ → ConnectionPlan → ℕ → M State DailyQuota
  assert_daily_quota_allowed facts sender plan now s =
      let (answer, daily) =
        check_daily_quota c (facts.id_text sender) plan (facts.local_date sender) now s.daily in
      (throw_if (not answer.allowed)
            (daily_limit_reached (ceil_seconds (answer.quota.resets_at - now)))
          >> pure answer.quota)
        (record s { daily = daily })

  abbrev pub throttle_of : Facts → ℕ → ℕ → Db → Bool × Option ℕ
  throttle_of facts recipient now db =
      resolve_inbound_throttle recipient
        (effective_cap (cap_of (facts.inbound_filter recipient))
          (years_of (facts.scoring_fields recipient)) (facts.reputation recipient))
        now db
