-- ===== src/Connections/Inbound.antt =====
-- What a recipient lets in: apps/api/src/modules/intents/inbound-filters.service.ts (checkInbound), and
-- the throttle of connections.service.ts (resolveInboundThrottle). Years of experience are tenths, as
-- numeric(4,1) holds them.
use convene.Common.{
  ℕ, ◌+◌, ◌*◌, ◌/◌, Bool, true, false, not, ◌&&◌, ◌||◌, Option, none, some, List, [], ◌∷◌, ltb, leb,
  ◌==◌, any, count, if◌then◌else◌,
}
use convene.Connections.{Request, Db, is_pending}
use convene.Connections.Cooldown.{day_ms}

pub record InboundIntentFilter : Type 0 where
  pub accepted_intents : Option (List ℕ)
  pub min_experience_years : Option ℕ
  pub max_experience_years : Option ℕ
  pub industry_ids : Option (List ℕ)
  pub verified_only : Bool
  pub max_inbound_per_day : Option ℕ

pub record InboundCheckFacts : Type 0 where
  pub intent_type : ℕ
  pub years_experience : ℕ
  pub industry_id : Option ℕ
  pub verification_level : ℕ

-- `!includes(x)`, for a list that is there and not empty.
abbrev pub leaves_out : Option (List ℕ) → Option ℕ → Bool
leaves_out none x = false
leaves_out (some []) x = false
leaves_out (some (y ∷ ys)) none = true
leaves_out (some (y ∷ ys)) (some x) = not (any (λ z. z == x) (y ∷ ys))

abbrev pub below : Option ℕ → ℕ → Bool
below none x = false
below (some least) x = ltb x least

abbrev pub above : Option ℕ → ℕ → Bool
above none x = false
above (some most) x = ltb most x

unfoldable pub check_inbound : Option InboundIntentFilter → InboundCheckFacts → Bool
check_inbound none facts = true
check_inbound (some row) facts =
    if leaves_out row.accepted_intents (some facts.intent_type)
    then false
    else if below row.min_experience_years facts.years_experience
    then false
    else if above row.max_experience_years facts.years_experience
    then false
    else if leaves_out row.industry_ids facts.industry_id
    then false
    else if row.verified_only && ltb facts.verification_level 1
    then false
    else true

abbrev pub senior_experience_tenths : ℕ
senior_experience_tenths = 80

abbrev pub high_reputation_threshold : ℕ
high_reputation_threshold = 80

abbrev pub auto_inbound_daily_cap : ℕ
auto_inbound_daily_cap = 10

-- The cap that applies: the recipient's own, or that of a senior or well reputed one.
abbrev pub effective_cap : Option ℕ → ℕ → ℕ → Option ℕ
effective_cap (some cap) years reputation = some cap
effective_cap none years reputation =
    if leb senior_experience_tenths years || leb high_reputation_threshold reputation
    then some auto_inbound_daily_cap
    else none

-- `setUTCHours(0, 0, 0, 0)`.
abbrev pub utc_midnight : ℕ → ℕ
utc_midnight now = now / day_ms * day_ms

abbrev pub is_inbound_since : ℕ → ℕ → Request → Bool
is_inbound_since recipient since r =
    r.recipient_id == recipient && (not r.is_queued && ltb since r.created_at)

abbrev pub is_queued_for : ℕ → Request → Bool
is_queued_for recipient r = r.recipient_id == recipient && (r.is_queued && is_pending r.status)

unfoldable pub count_inbound_today : ℕ → ℕ → Db → ℕ
count_inbound_today recipient since db = count (is_inbound_since recipient since) db.requests

unfoldable pub count_queued_for_recipient : ℕ → Db → ℕ
unfolding is_pending
count_queued_for_recipient recipient db = count (is_queued_for recipient) db.requests

-- Whether a request is queued, and its place in the queue.
unfoldable pub resolve_inbound_throttle : ℕ → Option ℕ → ℕ → Db → Bool × Option ℕ
resolve_inbound_throttle recipient none now db = (false, none)
resolve_inbound_throttle recipient (some cap) now db =
    if ltb (count_inbound_today recipient (utc_midnight now) db) cap
    then (false, none)
    else (true, some (count_queued_for_recipient recipient db + 1))
