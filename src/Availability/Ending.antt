-- ===== src/Availability/Ending.antt =====
-- The writes beside the sessions, to Redis and to the events, and the expiry of one session keep what
-- the tables of availability agree on (availability-expiry.service.ts: expireSession).
use convene.Common.{
  ℕ, ◌+◌, ◌≤◌, ◌≡◌, refl, sym, inl, inr, subst, Bool, true, false, none, some, List, arith, ◌==◌,
  Option-cases, if◌then◌else◌, count, find_first, find_first-holds, delete_where, update_where,
  Distinct, count-insert, count-update_one,
}
use convene.Availability.{EndReason, Session, Event, changed, Db}
use convene.Availability.Repository.{
  ended, is_live_of, is_active_id, expire_session_by_id, with_live, with_sessions,
}
use convene.Availability.Mirrors.{emit_changed, del_mirror, mirror_to_redis, emit}
use convene.Availability.Expiry.{expire_session, expired_of}
use convene.Availability.Consistency.{Sound, is_expired_event, is_over, expire_session_by_id-Sound}

-- Writes beside the sessions, of events that do not tell of an expiry.
pub del_mirror-Sound : (user : ℕ) (db : Db) → Sound db → Sound (del_mirror user db)
unfolding Sound
del_mirror-Sound user db h = h

pub mirror_to_redis-Sound :
    (written : Bool) (user : ℕ) (s : Session) (ids : List ℕ) (now : ℕ) (db : Db)
    → Sound db
    → Sound (mirror_to_redis written user s ids now db)
unfolding Sound mirror_to_redis
mirror_to_redis-Sound false user s ids now db h = h
mirror_to_redis-Sound true user s ids now db h = h

pub emit-Sound :
    (e : Event) (db : Db) → ((k : ℕ) → is_expired_event k e ≡ false) → Sound db → Sound (emit e db)
unfolding Sound
emit-Sound e db quiet (d, one, same, caps, told) = (
  d,
  one,
  same,
  caps,
  (λ k.
      let added = count-insert (is_expired_event k) e db.events in ground (arith, quiet k, told k)),
)

-- The event that tells of an expiry, once the session is counted as over once more.
told-Sound :
    (s : Session) (db : Db)
    → Sound db
    → ((k : ℕ)
        → count (is_expired_event k) db.events + (if s.id == k then 1 else 0)
          ≤ count (is_over k) db.sessions)
    → Sound (emit (expired_of s) db)
unfolding Sound
told-Sound s db (d, one, same, caps, told) room = (
  d,
  one,
  same,
  caps,
  (λ k.
      let added = count-insert (is_expired_event k) (expired_of s) db.events in
      omega (arith, room k)),
)

pub told_of :
    (db : Db)
    → Sound db
    → (k : ℕ) → count (is_expired_event k) db.events ≤ count (is_over k) db.sessions
unfolding Sound
told_of db (d, one, same, caps, told) = told

pub Sound-Distinct : (db : Db) → Sound db → Distinct (λ s. s.id) db.sessions
unfolding Sound
Sound-Distinct db (d, one, same, caps, told) = d

abbrev pub with_expired : ℕ → ℕ → Session → Db → Db
with_expired id now a db =
    with_live (delete_where (is_live_of a.user_id) db.live)
      (with_sessions (update_where (is_active_id id) (ended now EndReason.expired) db.sessions) db)

pub expire_session-none :
    (id now : ℕ) (db : Db)
    → find_first (is_active_id id) db.sessions ≡ none
    → (expire_session id now db).1 ≡ db
unfolding expire_session expire_session_by_id
expire_session-none id now db e = ground arith

pub expire_session-some :
    (id now : ℕ) (db : Db) {a : Session}
    → find_first (is_active_id id) db.sessions ≡ some a
    → (expire_session id now db).1
      ≡ emit_changed a.user_id none none
          (emit (expired_of a) (del_mirror a.user_id (with_expired id now a db)))
unfolding expire_session expire_session_by_id
expire_session-some id now db {a = a} e = ground arith

expire_by_id_some :
    (id now : ℕ) (db : Db) {a : Session}
    → find_first (is_active_id id) db.sessions ≡ some a
    → (expire_session_by_id id now EndReason.expired db).1 ≡ with_expired id now a db
unfolding expire_session_by_id
expire_by_id_some id now db {a = a} e = ground arith

pub expire_session-Sound : (id now : ℕ) (db : Db) → Sound db → Sound (expire_session id now db).1
expire_session-Sound id now db h = elim (Option-cases (find_first (is_active_id id) db.sessions)) [
  | inl e ↦ subst Sound (sym (expire_session-none id now db e)) h
  | inr (a, e) ↦
      let holds = find_first-holds (is_active_id id) db.sessions {a = a} e in
      let mid =
        subst Sound (expire_by_id_some id now db {a = a} e)
          (expire_session_by_id-Sound id now EndReason.expired db h) in
      let told =
        told-Sound a (del_mirror a.user_id (with_expired id now a db))
          (del_mirror-Sound a.user_id (with_expired id now a db) mid)
          (λ k.
            let one =
              count-update_one (is_over k) (is_active_id id) (λ s. s.id) id
                (ended now EndReason.expired) db.sessions {a = a} (Sound-Distinct db h)
                (λ x t. ground arith) e in
            ground (arith, told_of db h k)) in
      subst Sound (sym (expire_session-some id now db {a = a} e))
        (emit-Sound (changed a.user_id none none) _ (λ k. refl) told)
]
