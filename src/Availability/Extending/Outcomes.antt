-- ===== src/Availability/Extending/Outcomes.antt =====
-- What a request that extends a session comes to (availability.service.ts: extendSession).
use convene.Common.{
  ℕ, ◌+◌, ◌-◌, ◌*◌, ◌/◌, max, ◌≡◌, ◌⊎◌, inl, inr, Bool, true, false, ◌&&◌, none, some, List, [],
  ◌∷◌, map, select, arith, ◌==◌, find_first, update_where, delete_where, insert, if◌then◌else◌,
  is_none,
}
use convene.Errors.{Result, ok, err, AppError}
use convene.Availability.{Session, Db, changed, is_id, is_of}
use convene.Availability.Repository.{extend_session, is_owned_active}
use convene.Availability.Mirrors.{mirror_to_redis}
use convene.Availability.Service.{SessionResponse, extend}
use convene.Availability.Extending.{lengthened, Extensible, Refused, extend-Attempt}

-- The active row with an id and a user is found where the first with them is active.
owned_active :
    (id user : ℕ) (rows : List Session) {s : Session}
    → find_first (λ x. is_id id x && is_of user x) rows ≡ some s
    → s.ended_at ≡ none
    → find_first (is_owned_active id user) rows ≡ some s
owned_active id user [] e running = cc
owned_active id user (x ∷ xs) {s = s} e running = ground (arith, owned_active id user xs {s = s})

-- The intents of a session.
abbrev pub intents_of : ℕ → Db → List ℕ
intents_of id db = map (λ i. i.intent_id) (select (λ i. i.session_id == id) db.session_intents)

-- The rows of a session and of its user's live row with a new expiry, the mirror with a lifetime in
-- whole seconds, one at least, and the answer.
abbrev pub Extends : Bool → ℕ → ℕ → ℕ → ℕ → Db → Session → Result SessionResponse × Db → Type 0
Extends written user id expiry now db session r =
    (r.0
      ≡ ok (record {
        id = session.id;
        state = session.state;
        started_at = session.started_at;
        expires_at = some expiry;
        duration_minutes = session.duration_minutes;
        extensions_used = session.extensions_used + 1;
        extensions_remaining = 3 - (session.extensions_used + 1);
        note = session.note;
        session_intents = intents_of id db;
      }))
    × (r.1.sessions
        ≡ update_where (λ x. x.id == id && (x.user_id == user && is_none x.ended_at))
            (λ x. record x { expires_at = some expiry; extensions_used = x.extensions_used + 1 })
            db.sessions)
    × (r.1.live
        ≡ update_where (λ l. l.user_id == user)
            (λ l. record l { expires_at = some expiry; updated_at = now }) db.live)
    × (r.1.mirrors ≡ (
        if written
        then insert
            (record {
              user_id = user;
              state = session.state;
              session_id = session.id;
              expires_at = some expiry;
              intent_ids = intents_of id db;
              ttl_seconds = some (max 1 ((expiry - now + 500) / 1000));
            })
            (delete_where (λ m. m.user_id == user) db.mirrors)
        else db.mirrors))
    × (r.1.events ≡ insert (changed user (some session.state) (some expiry)) db.events)

lengthened-Extends :
    (written : Bool) (user id expiry now : ℕ) (db : Db) {session : Session}
    → find_first (is_owned_active id user) db.sessions ≡ some session
    → Extends written user id expiry now db session (lengthened written user id expiry now db)
unfolding lengthened extend_session mirror_to_redis
lengthened-Extends true user id expiry now db e =
    (ground arith, ground arith, ground arith, ground arith, ground arith)
lengthened-Extends false user id expiry now db e =
    (ground arith, ground arith, ground arith, ground arith, ground arith)

-- A request to extend a session throws, for a reason it names, and writes nothing: its user has no
-- such session, or it has ended, or is not available now, or has had three extensions, or the total
-- would exceed 240 minutes, or 120 on the free plan. Or none of these holds: then the row has the new
-- expiry and one extension more, and so has the user's live row the expiry; the mirror, where Redis
-- takes it, is replaced by one with the new expiry, the change is told, and the answer has them.
pub extend_lem :
    (written : Bool) (user id : ℕ) (premium : Bool) (additional now : ℕ) (db : Db)
    → ((e : AppError) × Refused premium user id additional db e
        × (extend written user id premium additional now db ≡ (err e, db)))
      ⊎ ((session : Session) × (expires : ℕ) × Extensible premium user id additional db session
            expires
          × Extends written user id
              (expires + additional * 60000)
              now
              db
              session
              (extend written user id premium additional now db))
extend_lem written user id premium additional now db =
    elim (extend-Attempt written user id premium additional now db) [
      | inl thrown ↦ inl thrown
      | inr (session, expires, may, same) ↦ inr (
        session,
        expires,
        may,
        rw same (
            lengthened-Extends written user id (expires + additional * 60000) now db
              {session = session}
              (owned_active id user db.sessions {s = session} may.found may.running)),
      )
    ]
