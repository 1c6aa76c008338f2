-- ===== src/Availability/Extending/Capped.antt =====
-- The caps on a session hold after a request that extends it (availability.service.ts: extendSession).
use convene.Common.{
  ℕ, ◌+◌, ◌*◌, ◌≡◌, sym, ap, inl, inr, subst, Bool, true, ◌&&◌, none, some, arith, ◌==◌, All,
  All-imp, find_first-holds, find_first-by_key, find_first_unique,
}
use convene.Errors.{Result-cases, Keeps}
use convene.Availability.{Session, Db, minute, is_id, is_of}
use convene.Availability.Repository.{extended, extend_session}
use convene.Availability.Service.{extend, session_intent_ids}
use convene.Availability.Consistency.{Sound, is_capped, extend_session-Sound}
use convene.Availability.Ending.{mirror_to_redis-Sound, Sound-Distinct}
use convene.Availability.Starting.{emit_changed-Sound}
use convene.Availability.Extending.{lengthened, Extensible, extend-Attempt}

lengthened-Sound :
    (written : Bool) (user id total now : ℕ) (db : Db)
    → All (λ x. is_id id x ≡ true → is_capped (extended total x) ≡ true) db.sessions
    → Sound db
    → Sound (lengthened written user id total now db).1
unfolding lengthened
lengthened-Sound written user id total now db fits h =
    let mid = extend_session id user total now db in
    let kept = extend_session-Sound id user total now db fits h in
    elim (Result-cases mid) [
      | inl (e, q) ↦ ground arith
      | inr (none, q) ↦ ground arith
      | inr (some s, q) ↦
          let ids = session_intent_ids id mid.1 in
          let mirrored = mirror_to_redis-Sound written user s ids now mid.1 kept in
          let after = emit_changed-Sound user (some s.state) s.expires_at _ mirrored in ground arith
    ]

Extensible-fits :
    (premium : Bool) (user id additional : ℕ) (db : Db) {session : Session} {expires : ℕ}
    → Extensible premium user id additional db session expires
    → Sound db
    → All
        (λ x. is_id id x ≡ true → is_capped (extended (expires + additional * minute) x) ≡ true)
        db.sessions
Extensible-fits premium user id additional db {session = session} {expires = expires} ok_to h =
    let distinct = Sound-Distinct db h in
    let holds =
      find_first-holds (λ s. is_id id s && is_of user s) db.sessions {a = session} ok_to.found in
    let same : session.id ≡ id = ground arith in
    let by_id =
      find_first-by_key (λ s. s.id) (λ s. is_id id s && is_of user s) db.sessions {a = session}
        distinct ok_to.found in
    let left = ok_to.left in
    let in_cap = ok_to.in_cap in
    All-imp (λ x. (x.id == session.id) ≡ true → x ≡ session)
      (λ x. is_id id x ≡ true → is_capped (extended (expires + additional * minute) x) ≡ true)
      db.sessions
      (λ x u t.
        subst (λ y. is_capped (extended (expires + additional * minute) y) ≡ true)
          (sym (u (ground arith))) (ground arith))
      (find_first_unique (λ s. s.id) session.id db.sessions {a = session} distinct by_id)

pub extend-Sound :
    (written : Bool) (user id : ℕ) (premium : Bool) (additional now : ℕ)
    → Keeps Sound (extend written user id premium additional now)
extend-Sound written user id premium additional now db h =
    elim (extend-Attempt written user id premium additional now db) [
      | inl (e, why_not, q) ↦ subst Sound (sym (ap (λ r. r.1) q)) h
      | inr (session, expires, ok_to, q) ↦ subst Sound (sym (ap (λ r. r.1) q)) (
          lengthened-Sound written user id (expires + additional * minute) now db
            (Extensible-fits premium user id additional db ok_to h) h)
    ]
