-- ===== src/Availability.antt =====
-- apps/api/src/modules/availability: the sessions in which a user is available. This file has the
-- tables of packages/db/src/schema/availability.ts and the state machine of
-- availability-state-machine.ts. Ids are numbers; times are milliseconds.
pub mod Repository
pub mod Schemas
pub mod Mirrors
pub mod Service
pub mod Expiry
pub mod Consistency
pub mod Creation
pub mod Ending
pub mod Starting
pub mod Extending
pub mod History
pub mod Sweep
pub mod Unswept
mod Examples
use convene.Common.{
  ℕ, ◌*◌, Bool, true, false, Option, none, some, List, [], is_none, ◌==◌, ◌&&◌, ◌∷◌,
}

-- The states that a user can activate; `scheduled` belongs to the scheduler and `offline` is the
-- absence of a session.
pub data ActivatableState : Type 0 where
  available_now busy away invisible : ActivatableState

pub data FromState : Type 0 where
  offline : FromState
  in_state : ActivatableState → FromState

-- `ALLOWED_TRANSITIONS[from].includes(to)`.
pub can_transition : FromState → ActivatableState → Bool
can_transition offline available_now = true
can_transition (in_state available_now) busy = true
can_transition (in_state available_now) away = true
can_transition (in_state available_now) invisible = true
can_transition (in_state busy) available_now = true
can_transition (in_state away) available_now = true
can_transition (in_state invisible) available_now = true
can_transition _ _ = false

unfoldable pub is_available_now : ActivatableState → Bool
is_available_now available_now = true
is_available_now _ = false

pub data EndReason : Type 0 where
  expired manual superseded disconnected : EndReason

pub record Session : Type 0 where
  pub id : ℕ
  pub user_id : ℕ
  pub state : ActivatableState
  pub started_at : ℕ
  pub expires_at : Option ℕ
  pub ended_at : Option ℕ
  pub end_reason : Option EndReason
  pub duration_minutes : Option ℕ
  pub extensions_used : ℕ
  pub note : Option (List ℕ)
  pub source : Option (List ℕ)
  pub matches_viewed : ℕ
  pub requests_sent : ℕ
  pub conversations_started : ℕ

pub record SessionIntent : Type 0 where
  pub session_id : ℕ
  pub intent_id : ℕ

-- A row of availability_live.
pub record Live : Type 0 where
  pub user_id : ℕ
  pub state : ActivatableState
  pub session_id : ℕ
  pub expires_at : Option ℕ
  pub intent_ids : Option (List ℕ)
  pub geohash5 : Option (List ℕ)
  pub city_id : Option ℕ
  pub updated_at : ℕ

pub record Profile : Type 0 where
  pub user_id : ℕ
  pub is_private : Bool
  pub geohash5 : Option (List ℕ)
  pub city_id : Option ℕ

pub record UserIntent : Type 0 where
  pub id : ℕ
  pub user_id : ℕ
  pub active : Bool

-- The value that `mirrorToRedis` writes at avail:{user}, and the seconds it lives; none is no end.
pub record Mirror : Type 0 where
  pub user_id : ℕ
  pub state : ActivatableState
  pub session_id : ℕ
  pub expires_at : Option ℕ
  pub intent_ids : List ℕ
  pub ttl_seconds : Option ℕ

-- The key avail:{user}:warned:{session} of a warning that was sent, and when it lapses.
pub record Warned : Type 0 where
  pub user_id : ℕ
  pub session_id : ℕ
  pub until : ℕ

-- What the services emit; `none` as a state is "offline".
pub data Event : Type 0 where
  changed : ℕ → Option ActivatableState → Option ℕ → Event
  expired_event : ℕ → ℕ → ℕ → ℕ → ℕ → Event
  expiring_soon : ℕ → ℕ → ℕ → Event

pub record Db : Type 0 where
  pub sessions : List Session
  pub session_intents : List SessionIntent
  pub live : List Live
  pub profiles : List Profile
  pub intents : List UserIntent
  pub mirrors : List Mirror
  pub warned : List Warned
  pub events : List Event

abbrev pub minute : ℕ
minute = 60000

-- `ended_at IS NULL`.
abbrev pub is_active : Session → Bool
is_active s = is_none s.ended_at

abbrev pub is_of : ℕ → Session → Bool
is_of user s = s.user_id == user

abbrev pub is_active_of : ℕ → Session → Bool
is_active_of user s = is_of user s && is_active s

abbrev pub is_id : ℕ → Session → Bool
is_id k s = s.id == k
