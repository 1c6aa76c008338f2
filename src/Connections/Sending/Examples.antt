-- ===== src/Connections/Sending/Examples.antt =====
-- Requests between users 1 and 2, over clients of Redis in memory.
use convene.Common.{
  ℕ, ◌+◌, ◌≤◌, ◌≡◌, refl, false, none, some, List, [], ◌∷◌, ◌++◌, arith, find_first, min,
}
use convene.Infra.Keys.{codes}
use convene.Infra.Redis.Memory as Flags
use convene.Infra.Redis.CounterMemory.{counters, no_counters, lookup}
use convene.RateLimit.Memory as Windows
use convene.TrustSafety
use convene.Connections.{Request, is_id, expired, pending, Db, is_pending}
use convene.Connections.Pairs.{Paired}
use convene.Connections.Cooldown.{count_rejected_requests}
use convene.Connections.Quota.{free, daily_limits}
use convene.Connections.Quota.Daily.{sent, sent-daily_limits, sent-across_midnight}
use convene.Connections.Sending.{Facts, SendConnectionRequestInput, SendDraw}
use convene.Connections.Sending.Checks.{State}
use convene.Connections.Sending.Flow.{send_request}
use convene.Connections.Sending.Once.{send_request-once}
use convene.Connections.Sending.History.{Event, sends, answers, run, run-rejections}
use convene.Connections.Sending.Final.{run-answered}
use convene.Connections.Sending.Answering.{rejects}

abbrev facts : Facts
facts = record {
  user_status = λ u. some TrustSafety.active;
  owned_active_intent = λ u i. some 0;
  intent_score = λ a b. 50;
  inbound_filter = λ u. none;
  scoring_fields = λ u. none;
  reputation = λ u. 50;
  local_date = λ u t. codes "2026-05-01";
  id_text = λ u. codes "u";
  lower = λ text. text;
}

abbrev tables : Db
tables = record {
  requests = [];
  connections = [];
  conversations = [];
  participants = [];
  messages = [];
  blocks = [];
  notified = [];
}

abbrev St : Type 0
St = State Windows.memory counters Flags.memory

abbrev start : St
start = record {
  db = tables;
  velocity = Windows.fresh;
  daily = no_counters;
  flags = Flags.fresh ℕ;
  notes = λ u. [];
}

abbrev to : ℕ → SendConnectionRequestInput
to recipient = record { recipient_id = recipient; intent_id = 7; note = none; match_score = none }

abbrev draw : ℕ → SendDraw
draw n = record {
  rows = record { request = n; connection = n; conversation = n; message = n };
  member = n;
}

send_request-once_example :
    send_request Windows.memory counters Flags.memory 5 facts 1 free (to 2) (draw 10) 1000 start
    ≡ send_request Windows.memory counters Flags.memory 1 facts 1 free (to 2) (draw 10) 1000 start
send_request-once_example =
    send_request-once Windows.memory counters Flags.memory 4 facts 1 free (to 2) (draw 10) 1000
      start

no_rows : Paired tables
unfolding Paired is_pending
no_rows = (tt, (λ s r. omega arith), tt, (λ a b. omega arith))

abbrev events : List (ℕ × Event Windows.memory counters Flags.memory)
events =
    (1000, sends facts 1 free (to 2) (draw 10))
    ∷ (2000, answers (rejects 2 10))
    ∷ (2592002000, sends facts 1 free (to 2) (draw 11))
    ∷ (2592003000, answers (rejects 2 11))
    ∷ []

run-rejections_example :
    count_rejected_requests 1 2 (run Windows.memory counters Flags.memory events start).db ≤ 2
run-rejections_example =
    run-rejections Windows.memory counters Flags.memory events start 1 2 refl no_rows
      (omega arith, (omega arith, (omega arith, (omega arith, tt))))

abbrev lapsed : Request
lapsed = record {
  id = 10;
  sender_id = 1;
  recipient_id = 2;
  intent_id = some 7;
  note = none;
  match_score = none;
  status = expired;
  is_queued = false;
  responded_at = some 1000;
  expires_at = 900;
  created_at = 0;
}

abbrev asking_back : Request
asking_back = record lapsed {
  id = 11;
  sender_id = 2;
  recipient_id = 1;
  status = pending;
  responded_at = none;
  expires_at = 2592001000;
}

-- User 1 asks again after a month, when user 2 has asked: both are accepted, and the request that
-- lapsed stays as it is.
abbrev later_events : List (ℕ × Event Windows.memory counters Flags.memory)
later_events =
    (2592000000, sends facts 1 free (to 2) (draw 12)) ∷ (2592000500, answers (rejects 2 10)) ∷ []

abbrev waiting : St
waiting = record start { db = record tables { requests = lapsed ∷ asking_back ∷ [] } }

lapsed_done : is_pending lapsed.status ≡ false
unfolding is_pending
lapsed_done = refl

run-answered_example :
    find_first
      (is_id 10)
      (run Windows.memory counters Flags.memory later_events waiting).db.requests
    ≡ some lapsed
run-answered_example =
    run-answered Windows.memory counters Flags.memory later_events waiting 10 lapsed refl
      lapsed_done

abbrev here : List ℕ
here = codes "u"

abbrev today : ℕ → List ℕ
today t = codes "2026-05-01"

sent-daily_limits_example :
    sent counters here free today (100 ∷ 200 ∷ 300 ∷ []) no_counters ≡ min 3 (daily_limits free)
unfolding counters no_counters lookup
sent-daily_limits_example =
    sent-daily_limits counters here free today (codes "2026-05-01") 100 (200 ∷ 300 ∷ []) no_counters
      refl (refl, (refl, (refl, tt))) (omega arith)

sent-across_midnight_example :
    sent counters here free today ((100 ∷ 200 ∷ []) ++ (86400000 ∷ [])) no_counters
    ≡ min 2 (daily_limits free) + min 1 (daily_limits free)
unfolding counters no_counters lookup
sent-across_midnight_example =
    sent-across_midnight counters here free today (codes "2026-05-01") 100 (200 ∷ []) 86400000 []
      no_counters refl (refl, (refl, (refl, tt))) (omega arith) (omega arith) tt
