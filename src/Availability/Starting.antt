-- ===== src/Availability/Starting.antt =====
-- A request that starts a session, or that ends one, keeps what the tables of availability agree on
-- (availability.service.ts: createSession, endSession).
use convene.Common.{
  ℕ, ◌≡◌, refl, sym, ap, inl, inr, subst, Bool, true, not, Option, none, some, List, [], arith, leb,
  ◌==◌, Bool-cases, Option-cases, find_first, or_else, any, ◌⊎◌,
}
use convene.Errors.{Result-cases, ok, M, Keeps, ◌>>◌, ◌>>=◌, pure, modify}
use convene.Availability.{ActivatableState, can_transition, EndReason, Profile, changed, Db}
use convene.Availability.Repository.{new_session, get_active_session, create_session, end_session}
use convene.Availability.Schemas.{CreateSessionInput, contains}
use convene.Availability.Mirrors.{emit_changed, mirror_to_redis}
use convene.Availability.Service.{
  SessionResponse, check_duration, duration_of, start, end, params_of, to_session_response,
  from_state, active_intent_ids,
}
use convene.Availability.Consistency.{Sound, is_capped, end_session-Sound}
use convene.Availability.Creation.{create_session-Sound}
use convene.Availability.Ending.{del_mirror-Sound, mirror_to_redis-Sound, emit-Sound}

pub emit_changed-Sound :
    (user : ℕ) (state : Option ActivatableState) (expires : Option ℕ) (db : Db)
    → Sound db
    → Sound (emit_changed user state expires db)
emit_changed-Sound user state expires db h =
    emit-Sound (changed user state expires) db (λ k. refl) h

abbrev short : Option ℕ → Bool
short none = true
short (some d) = leb d 240

-- The checks of the duration write nothing, and what passes them lasts four hours at most.
check_duration-reads :
    (premium : Bool) (input : CreateSessionInput) (db : Db)
    → (check_duration premium input db).1 ≡ db
check_duration-reads premium input db = ground arith

check_duration-short :
    (premium : Bool) (input : CreateSessionInput) (db : Db)
    → (check_duration premium input db).0 ≡ ok tt
    → short (duration_of input) ≡ true
check_duration-short premium input db e = ground arith

short-capped :
    (id user now : ℕ) (input : CreateSessionInput) (profile : Profile) (ids : List ℕ)
    → short (duration_of input) ≡ true
    → is_capped (new_session id (params_of user input profile ids now)) ≡ true
short-capped id user now input profile ids e = ground arith

-- The writes of a request that starts a session, once every check has passed.
started-Sound :
    (id : ℕ) (written : Bool) (user now : ℕ) (input : CreateSessionInput) (profile : Profile)
    (ids : List ℕ) (db : Db)
    → short (duration_of input) ≡ true
    → Sound db
    → Sound (create_session id (params_of user input profile ids now) db).1
started-Sound id written user now input profile ids db e h =
    create_session-Sound id _ db (short-capped id user now input profile ids e) h

pub end-Sound : (user id now : ℕ) → Keeps Sound (end user id now)
unfolding end
end-Sound user id now db h =
    let mid = end_session id user now EndReason.manual db in
    let kept = end_session-Sound id user now EndReason.manual db h in
    let after = emit_changed-Sound user none none _ (del_mirror-Sound user mid.1 kept) in
    elim (Result-cases mid) [
      | inl (e, q) ↦ ground arith
      | inr (none, q) ↦ ground arith
      | inr (some row, q) ↦ ground arith
    ]

-- The writes that follow every check of a request that starts a session.
begun : ℕ → Bool → ℕ → CreateSessionInput → Profile → List ℕ → ℕ → M Db SessionResponse
begun id written user input profile ids now =
    create_session id (params_of user input profile ids now) >>= λ created.
    modify (mirror_to_redis written user created ids now)
    >> (modify (emit_changed user (some created.state) created.expires_at)
        >> pure (to_session_response created ids))

begun-Sound :
    (id : ℕ) (written : Bool) (user : ℕ) (input : CreateSessionInput) (profile : Profile)
    (ids : List ℕ) (now : ℕ) (db : Db)
    → short (duration_of input) ≡ true
    → Sound db
    → Sound (begun id written user input profile ids now db).1
unfolding begun
begun-Sound id written user input profile ids now db brief h =
    let mid = create_session id (params_of user input profile ids now) db in
    let kept = started-Sound id written user now input profile ids db brief h in
    elim (Result-cases mid) [
      | inl (e, q) ↦ ground arith
      | inr (s, q) ↦
          let mirrored = mirror_to_redis-Sound written user s ids now mid.1 kept in
          let after = emit_changed-Sound user (some s.state) s.expires_at _ mirrored in ground arith
    ]

-- A request that starts a session reads until its checks have passed.
start_lem :
    (id : ℕ) (written : Bool) (user : ℕ) (premium : Bool) (input : CreateSessionInput) (now : ℕ)
    (db : Db)
    → ((start id written user premium input now db).1 ≡ db)
      ⊎ ((profile : Profile) × (ids : List ℕ) × ((check_duration premium input db).0 ≡ ok tt)
          × ((start id written user premium input now db).1
              ≡ (begun id written user input profile ids now db).1))
unfolding start begun
start_lem id written user premium input now db =
    let same = check_duration-reads premium input db in
    let active = from_state (get_active_session user db) in
    let intents = active_intent_ids user db in
    let ids = or_else input.session_intent_ids intents in
    elim (Result-cases (check_duration premium input db)) [
      | inl (e, q) ↦ inl (ground arith)
      | inr (t, q) ↦ elim (Option-cases (find_first (λ p. p.user_id == user) db.profiles)) [
        | inl e ↦ inl (ground arith)
        | inr (profile, e) ↦ elim (Bool-cases profile.is_private) [
          | inl private ↦ inl (ground arith)
          | inr shown ↦ elim (Bool-cases (can_transition active input.state)) [
            | inr wrong ↦ inl (ground arith)
            | inl allowed ↦
                elim (Bool-cases
                  (any (λ i. not (contains intents i)) (or_else input.session_intent_ids []))) [
                    | inl bad ↦ inl (ground arith)
                    | inr good ↦ inr (profile, ids, ap (λ r. r.0) q, ground arith)
                  ]
          ]
        ]
      ]
    ]

pub start-Sound :
    (id : ℕ) (written : Bool) (user : ℕ) (premium : Bool) (input : CreateSessionInput) (now : ℕ)
    → Keeps Sound (start id written user premium input now)
start-Sound id written user premium input now db h =
    elim (start_lem id written user premium input now db) [
      | inl e ↦ subst Sound (sym e) h
      | inr (profile, ids, passed, e) ↦ subst Sound (sym e) (
          begun-Sound id written user input profile ids now db
            (check_duration-short premium input db passed) h)
    ]
