-- ===== src/Availability/Mirrors.antt =====
-- What availability.service.ts writes beside the database: the mirror of a session in Redis and the
-- events of its changes.
use convene.Common.{
  ℕ, ◌+◌, ◌-◌, ◌/◌, max, Bool, true, false, Option, none, some, List, ◌==◌, insert, delete_where,
}
use convene.Availability.{ActivatableState, Session, Mirror, Event, changed, Db}

abbrev pub emit : Event → Db → Db
emit e db = record db { events = insert e db.events }

abbrev pub with_mirrors : List Mirror → Db → Db
with_mirrors mirrors db = record db { mirrors = mirrors }

-- `redis.client.del(availabilityKey(user))`.
abbrev pub del_mirror : ℕ → Db → Db
del_mirror user db = with_mirrors (delete_where (λ m. m.user_id == user) db.mirrors) db

abbrev pub emit_changed : ℕ → Option ActivatableState → Option ℕ → Db → Db
emit_changed user state expires db = emit (changed user state expires) db

-- `Math.max(1, Math.round(ms / 1000))`.
abbrev pub ttl_seconds : ℕ → ℕ → ℕ
ttl_seconds expires now = max 1 ((expires - now + 500) / 1000)

-- `mirrorToRedis`; a write that Redis refuses is swallowed.
unfoldable pub mirror_to_redis : Bool → ℕ → Session → List ℕ → ℕ → Db → Db
mirror_to_redis false user session ids now db = db
mirror_to_redis true user session ids now db =
    with_mirrors
      (insert
        (record {
          user_id = user;
          state = session.state;
          session_id = session.id;
          expires_at = session.expires_at;
          intent_ids = ids;
          ttl_seconds = elim session.expires_at [ none ↦ none | some t ↦ some (ttl_seconds t now) ];
        })
        (delete_where (λ m. m.user_id == user) db.mirrors))
      db
