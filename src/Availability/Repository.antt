-- ===== src/Availability/Repository.antt =====
-- apps/api/src/modules/availability/repositories/availability.repository.ts: the queries on
-- sessions, and the writes that keep availability_live beside them. A write returns the rows it
-- changed, as RETURNING does; the insert of a session meets the table's primary key and its index
-- uq_avail_active_per_user.
use convene.Common.{
  ℕ, ◌+◌, Bool, false, ◌&&◌, ◌||◌, Option, none, some, List, [], ◌∷◌, ◌++◌, map, ◌==◌, ltb, leb,
  select, find_first, update_where, insert, delete_where, any,
}
use convene.Errors.{
  M, ◌>>=◌, ◌>>◌, pure, throw_if, gets, modify, transaction, app_error, ErrorCode, ErrorClass,
  Result,
}
use convene.Availability.{
  ActivatableState, is_available_now, EndReason, Session, SessionIntent, Live, Db, is_active, is_of,
  is_active_of, is_id,
}

pub record CreateSessionParams : Type 0 where
  pub user_id : ℕ
  pub state : ActivatableState
  pub duration_minutes : Option ℕ
  pub expires_at : Option ℕ
  pub note : Option (List ℕ)
  pub source : Option (List ℕ)
  pub intent_ids : List ℕ
  pub geohash5 : Option (List ℕ)
  pub city_id : Option ℕ
  pub now : ℕ

unfoldable pub get_active_session : ℕ → Db → Option Session
get_active_session user db = find_first (is_active_of user) db.sessions

-- `SET ended_at = now, end_reason = reason`.
abbrev pub ended : ℕ → EndReason → Session → Session
ended now reason s = record s { ended_at = some now; end_reason = some reason }

abbrev pub extended : ℕ → Session → Session
extended expires s = record s { expires_at = some expires; extensions_used = s.extensions_used + 1 }

abbrev pub with_state : ActivatableState → Session → Session
with_state state s = record s { state = state }

abbrev pub with_sessions : List Session → Db → Db
with_sessions sessions db = record db { sessions = sessions }

abbrev pub with_live : List Live → Db → Db
with_live live db = record db { live = live }

abbrev pub with_session_intents : List SessionIntent → Db → Db
with_session_intents rows db = record db { session_intents = rows }

abbrev pub is_live_of : ℕ → Live → Bool
is_live_of user l = l.user_id == user

-- `INSERT … ON CONFLICT (user_id) DO UPDATE`: the row of the user takes the new values.
abbrev pub upsert_live : Live → List Live → List Live
upsert_live row live = insert row (delete_where (is_live_of row.user_id) live)

abbrev pub new_session : ℕ → CreateSessionParams → Session
new_session id params = record {
  id = id;
  user_id = params.user_id;
  state = params.state;
  started_at = params.now;
  expires_at = params.expires_at;
  ended_at = none;
  end_reason = none;
  duration_minutes = params.duration_minutes;
  extensions_used = 0;
  note = params.note;
  source = params.source;
  matches_viewed = 0;
  requests_sent = 0;
  conversations_started = 0;
}

abbrev pub new_live : ℕ → CreateSessionParams → Live
new_live id params = record {
  user_id = params.user_id;
  state = params.state;
  session_id = id;
  expires_at = params.expires_at;
  intent_ids = let ids = params.intent_ids in elim ids [ [] ↦ none | i ∷ is ↦ some (i ∷ is) ];
  geohash5 = params.geohash5;
  city_id = params.city_id;
  updated_at = params.now;
}

-- The rows that an insert of this session would violate a unique index with.
abbrev pub conflicts : Session → Session → Bool
conflicts s t = is_id s.id t || is_active_of s.user_id t

abbrev pub supersede : ℕ → ℕ → List Session → List Session
supersede user now sessions =
    update_where (is_active_of user) (ended now EndReason.superseded) sessions

-- Two rows of one session for one intent would violate the primary key of the session's intents.
abbrev pub repeats : List ℕ → Bool
repeats [] = false
repeats (i ∷ is) = any (λ j. j == i) is || repeats is

-- `createSession`, with the violation of a unique index as the conflict that the service reports.
unfoldable pub create_session : ℕ → CreateSessionParams → M Db Session
create_session id params = transaction (
    modify (λ db. with_sessions (supersede params.user_id params.now db.sessions) db)
    >> (gets
          (λ db. any (conflicts (new_session id params)) db.sessions || repeats params.intent_ids)
        >>= λ taken.
            throw_if taken (app_error ErrorClass.conflict_app_error ErrorCode.conflict)
            >> (modify (λ db. with_live (upsert_live (new_live id params) db.live) (
                  with_session_intents
                    (db.session_intents
                      ++ map (λ i. record { session_id = id; intent_id = i }) params.intent_ids)
                    (with_sessions (insert (new_session id params) db.sessions) db)))
                >> pure (new_session id params))))

abbrev pub is_owned_active : ℕ → ℕ → Session → Bool
is_owned_active id user s = is_id id s && (is_of user s && is_active s)

abbrev pub extend_live : ℕ → ℕ → Live → Live
extend_live expires now l = record l { expires_at = some expires; updated_at = now }

unfoldable pub extend_session : ℕ → ℕ → ℕ → ℕ → M Db (Option Session)
extend_session id user expires now db = elim (find_first (is_owned_active id user) db.sessions) [
  | none ↦ (Result.ok none, db)
  | some s ↦ (
    Result.ok (some (extended expires s)),
    with_live (update_where (is_live_of user) (extend_live expires now) db.live)
        (with_sessions (update_where (is_owned_active id user) (extended expires) db.sessions) db),
  )
]

unfoldable pub end_session : ℕ → ℕ → ℕ → EndReason → M Db (Option Session)
end_session id user now reason db = elim (find_first (is_owned_active id user) db.sessions) [
  | none ↦ (Result.ok none, db)
  | some s ↦ (
    Result.ok (some (ended now reason s)),
    with_live (delete_where (is_live_of user) db.live)
        (with_sessions (update_where (is_owned_active id user) (ended now reason) db.sessions) db),
  )
]

abbrev pub is_active_id : ℕ → Session → Bool
is_active_id id s = is_id id s && is_active s

abbrev pub expires_before : ℕ → Session → Bool
expires_before now s = elim s.expires_at [ none ↦ false | some t ↦ ltb t now ]

abbrev pub expires_from : ℕ → Session → Bool
expires_from now s = elim s.expires_at [ none ↦ false | some t ↦ leb now t ]

abbrev pub is_due : ℕ → Session → Bool
is_due now s = is_available_now s.state && (is_active s && expires_before now s)

unfoldable pub find_expired_sessions : ℕ → Db → List Session
find_expired_sessions now db = select (is_due now) db.sessions

unfoldable pub expire_session_by_id : ℕ → ℕ → EndReason → M Db (Option Session)
expire_session_by_id id now reason db = elim (find_first (is_active_id id) db.sessions) [
  | none ↦ (Result.ok none, db)
  | some s ↦ (
    Result.ok (some (ended now reason s)),
    with_live (delete_where (is_live_of s.user_id) db.live)
        (with_sessions (update_where (is_active_id id) (ended now reason) db.sessions) db),
  )
]

unfoldable pub find_sessions_expiring_within : ℕ → ℕ → Db → List Session
find_sessions_expiring_within now within db =
    select
      (λ s.
        is_available_now s.state
        && (is_active s && (expires_before (now + within) s && expires_from now s)))
      db.sessions

unfoldable pub find_active_available_now_sessions : Db → List Session
find_active_available_now_sessions db =
    select (λ s. is_available_now s.state && is_active s) db.sessions

abbrev pub live_with_state : ActivatableState → ℕ → Live → Live
live_with_state state now l = record l { state = state; updated_at = now }

unfoldable pub set_session_state : ℕ → ActivatableState → ℕ → M Db (Option Session)
set_session_state id state now db = elim (find_first (is_active_id id) db.sessions) [
  | none ↦ (Result.ok none, db)
  | some s ↦ (
    Result.ok (some (with_state state s)),
    with_live (update_where (is_live_of s.user_id) (live_with_state state now) db.live)
        (with_sessions (update_where (is_active_id id) (with_state state) db.sessions) db),
  )
]
