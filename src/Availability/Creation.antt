-- ===== src/Availability/Creation.antt =====
-- The creation of a session keeps what the tables of availability agree on
-- (availability.repository.ts: createSession).
use convene.Common.{
  ℕ, ◌≡◌, ◌≢◌, refl, sym, ap, ◌∙◌, inl, inr, subst, true, false, ◌||◌, List, ◌++◌, arith, ◌==◌,
  ==_iff, Bool-cases, if◌then◌else◌, any-none, All-imp, count, delete_where, map, insert, any,
  Distinct-update, Distinct-insert, All-update, All-insert, count-insert, count-update_clear,
  count-update_same, count-delete_all, count-delete_other,
}
use convene.Availability.{EndReason, Session, Live, Db, is_active_of}
use convene.Availability.Repository.{
  CreateSessionParams, ended, is_live_of, new_session, conflicts, repeats, create_session,
  supersede, upsert_live, new_live, with_live, with_sessions, with_session_intents,
}
use convene.Availability.Consistency.{Sound, is_capped, is_over, over_grows}

abbrev superseded : CreateSessionParams → Db → List Session
superseded params db = supersede params.user_id params.now db.sessions

abbrev with_created : ℕ → CreateSessionParams → Db → Db
with_created id params db = with_live (upsert_live (new_live id params) db.live) (
    with_session_intents
      (db.session_intents ++ map (λ i. record { session_id = id; intent_id = i }) params.intent_ids)
      (with_sessions (insert (new_session id params) (superseded params db)) db))

create_session_lem :
    (id : ℕ) (params : CreateSessionParams) (db : Db)
    → (create_session id params db).1 ≡ (
        if any (conflicts (new_session id params)) (superseded params db)
          || repeats params.intent_ids
        then db
        else with_created id params db)
unfolding create_session
create_session_lem id params db = ground arith

-- After the update that supersedes a user's sessions.
count-superseded :
    (u user now : ℕ) (sessions : List Session)
    → count (is_active_of u) (supersede user now sessions)
      ≡ (if user == u then 0 else count (is_active_of u) sessions)
count-superseded u user now sessions = elim (Bool-cases (user == u)) [
  | inl t ↦
      let none_left =
        count-update_clear (is_active_of u) (is_active_of user) (ended now EndReason.superseded)
          sessions (λ x p. ground arith) (λ x p. ground arith) in
      ground arith
  | inr f ↦
      let kept =
        count-update_same (is_active_of u) (is_active_of user) (ended now EndReason.superseded)
          sessions (λ x p. ground arith) in
      ground arith
]

count-upserted :
    (u : ℕ) (row : Live) (live : List Live)
    → count (is_live_of u) (upsert_live row live)
      ≡ (if row.user_id == u then 1 else count (is_live_of u) live)
count-upserted u row live =
    let rest = delete_where (is_live_of row.user_id) live in
    let all = count-insert (is_live_of u) row rest in
    elim (Bool-cases (row.user_id == u)) [
      | inl t ↦
          let mine = (==_iff row.user_id u).0 t in
          let gone : count (is_live_of u) rest ≡ 0 =
            subst (λ v. count (is_live_of u) (delete_where (is_live_of v) live) ≡ 0) (sym mine)
              (count-delete_all (is_live_of u) live) in
          ground arith
      | inr f ↦
          let kept =
            count-delete_other (is_live_of u) (is_live_of row.user_id) live (λ x t. ground arith) in
          ground arith
    ]

created-Sound :
    (id : ℕ) (params : CreateSessionParams) (db : Db)
    → any (conflicts (new_session id params)) (superseded params db) ≡ false
    → is_capped (new_session id params) ≡ true
    → Sound db
    → Sound (with_created id params db)
unfolding Sound
created-Sound id params db free capped (d, one, same, caps, told) =
    let new = new_session id params in
    let before = superseded params db in
    let fresh =
      All-imp (λ x. conflicts new x ≡ false) (λ x. x.id ≢ id) before (λ x c e. ground arith)
        (any-none (conflicts new) before free) in
    (
      Distinct-insert (λ s. s.id) new before
          (Distinct-update (λ s. s.id) (is_active_of params.user_id)
            (ended params.now EndReason.superseded) db.sessions (λ x. refl) d)
          fresh,
      (λ u.
          let added = count-insert (is_active_of u) new before in
          let left = count-superseded u params.user_id params.now db.sessions in
          ground (arith, one u)),
      (λ u.
          let added = count-insert (is_active_of u) new before in
          let left = count-superseded u params.user_id params.now db.sessions in
          let live = count-upserted u (new_live id params) db.live in ground (arith, same u)),
      All-insert (λ s. is_capped s ≡ true) new before
          (All-update (λ s. is_capped s ≡ true) (is_active_of params.user_id)
            (ended params.now EndReason.superseded) db.sessions (λ x c t. c) caps)
          capped,
      (λ k.
          let added = count-insert (is_over k) new before in
          let grown =
            over_grows k params.now EndReason.superseded (is_active_of params.user_id)
              db.sessions in
          omega (arith, told k)),
    )

pub create_session-Sound :
    (id : ℕ) (params : CreateSessionParams) (db : Db)
    → is_capped (new_session id params) ≡ true
    → Sound db
    → Sound (create_session id params db).1
create_session-Sound id params db capped h =
    let taken =
      any (conflicts (new_session id params)) (superseded params db) || repeats params.intent_ids in
    elim (Bool-cases taken) [
      | inl t ↦
          subst Sound
            (sym (
              create_session_lem id params db
              ∙ ap (λ b. if b then db else with_created id params db) t))
            h
      | inr f ↦
          subst Sound
            (sym (
              create_session_lem id params db
              ∙ ap (λ b. if b then db else with_created id params db) f))
            (created-Sound id params db (ground arith) capped h)
    ]
