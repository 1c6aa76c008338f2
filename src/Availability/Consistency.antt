-- ===== src/Availability/Consistency.antt =====
-- What the tables of availability agree on, and that each write of availability.repository.ts keeps
-- it.
use convene.Common.{
  subst, delete_where, ℕ, ◌+◌, ◌*◌, ◌≤◌, ◌≡◌, refl, sym, ap, inl, inr, Bool, true, false, not, ◌&&◌,
  Option, none, some, List, [], ◌∷◌, arith, leb, ◌==◌, ==_iff, ==_refl, Bool-cases, Option-outcome,
  if◌then◌else◌, All, count, find_first, find_first-holds, update_where, Distinct, Distinct-update,
  All-update, count-update_same, count-update_one, count-update-ge, count-delete_all,
  count-delete_other,
}
use convene.Errors.{Result}
use convene.Availability.{
  ActivatableState, EndReason, Session, Live, Event, changed, expired_event, expiring_soon, Db,
  minute, is_active, is_active_of, is_id,
}
use convene.Availability.Repository.{
  ended, extended, with_state, is_live_of, extend_session, is_owned_active, end_session,
  is_active_id, expire_session_by_id, set_session_state, extend_live, live_with_state, with_live,
  with_sessions,
}
use convene.Availability.Schemas.{max_extensions, cumulative_cap_minutes}

-- A session within the caps: at most three extensions, and 240 minutes in all.
abbrev pub is_capped : Session → Bool
is_capped s = leb s.extensions_used max_extensions && elim s.expires_at [
  | none ↦ true
  | some t ↦ leb t (s.started_at + cumulative_cap_minutes * minute)
]

abbrev pub is_expired_event : ℕ → Event → Bool
is_expired_event k (changed user state expires) = false
is_expired_event k (expired_event user id viewed requests conversations) = id == k
is_expired_event k (expiring_soon user id minutes) = false

abbrev pub is_over : ℕ → Session → Bool
is_over k s = is_id k s && not (is_active s)

-- Ids are distinct; a user has at most one active session, and a row of availability_live exactly
-- when there is one; the sessions are within the caps; and the events tell of the expiry of
-- sessions that are over only, of each at most once.
unfoldable pub Sound : Db → Type 0
Sound db =
    Distinct (λ s. s.id) db.sessions
    × ((u : ℕ) → count (is_active_of u) db.sessions ≤ 1)
    × ((u : ℕ) → count (is_live_of u) db.live ≡ count (is_active_of u) db.sessions)
    × All (λ s. is_capped s ≡ true) db.sessions
    × ((k : ℕ) → count (is_expired_event k) db.events ≤ count (is_over k) db.sessions)

-- The parts that a write of one active session keeps when it ends the session and deletes the row
-- of its user.
end_active :
    (u w : ℕ) (p : Session → Bool) (k now : ℕ) (reason : EndReason) (sessions : List Session)
    (live : List Live) {a : Session}
    → Distinct (λ s. s.id) sessions
    → ((x : Session) → p x ≡ true → x.id ≡ k)
    → find_first p sessions ≡ some a
    → is_active_of w a ≡ true
    → count (is_active_of u) sessions ≤ 1
    → count (is_live_of u) live ≡ count (is_active_of u) sessions
    → (count (is_active_of u) (update_where p (ended now reason) sessions) ≤ 1)
      × (count (is_live_of u) (delete_where (is_live_of w) live)
          ≡ count (is_active_of u) (update_where p (ended now reason) sessions))
end_active u w p k now reason sessions live {a = a} d h e act one same =
    let move =
      count-update_one (is_active_of u) p (λ s. s.id) k (ended now reason) sessions {a = a} d h e in
    elim (Bool-cases (w == u)) [
      | inl t ↦
          let gone = count-delete_all (is_live_of u) live in
          subst
            (λ v.
              (count (is_active_of u) (update_where p (ended now reason) sessions) ≤ 1)
              × (count (is_live_of u) (delete_where (is_live_of v) live)
                  ≡ count (is_active_of u) (update_where p (ended now reason) sessions)))
            (sym ((==_iff w u).0 t)) (ground (arith, gone))
      | inr f ↦
          let kept = count-delete_other (is_live_of u) (is_live_of w) live (λ x t. ground arith) in
          ground (arith, kept)
    ]

-- A write of sessions that leaves who they belong to and whether they are active.
keep_active :
    (f : Session → Session) (p : Session → Bool) (sessions : List Session)
    → ((x : Session) → (f x).id ≡ x.id)
    → ((x : Session) → (f x).user_id ≡ x.user_id)
    → ((x : Session) → (f x).ended_at ≡ x.ended_at)
    → ((u : ℕ)
        → count (is_active_of u) (update_where p f sessions) ≡ count (is_active_of u) sessions)
      × ((k : ℕ) → count (is_over k) (update_where p f sessions) ≡ count (is_over k) sessions)
keep_active f p sessions same_id same_user same_end = (
  (λ u. count-update_same (is_active_of u) p f sessions (λ x t. rw (same_user x, same_end x) refl)),
  (λ k. count-update_same (is_over k) p f sessions (λ x t. rw (same_id x, same_end x) refl)),
)

pub over_grows :
    (k now : ℕ) (reason : EndReason) (p : Session → Bool) (sessions : List Session)
    → count (is_over k) sessions ≤ count (is_over k) (update_where p (ended now reason) sessions)
over_grows k now reason p sessions =
    count-update-ge (is_over k) p (ended now reason) sessions (λ x t q. ground arith)

ends-Sound :
    (p : Session → Bool) (k w now : ℕ) (reason : EndReason) (db : Db) {a : Session}
    → ((x : Session) → p x ≡ true → x.id ≡ k)
    → find_first p db.sessions ≡ some a
    → is_active_of w a ≡ true
    → Sound db
    → Sound (
        with_live
          (delete_where (is_live_of w) db.live)
          (with_sessions (update_where p (ended now reason) db.sessions) db))
unfolding Sound
ends-Sound p k w now reason db {a = a} h e act (d, one, same, caps, told) =
    let part = λ (u : ℕ).
      end_active u w p k now reason db.sessions db.live {a = a} d h e act (one u) (same u) in
    (
      Distinct-update (λ s. s.id) p (ended now reason) db.sessions (λ x. refl) d,
      (λ u. (part u).0),
      (λ u. (part u).1),
      All-update (λ s. is_capped s ≡ true) p (ended now reason) db.sessions (λ x c t. c) caps,
      (λ k. omega (arith, told k, over_grows k now reason p db.sessions)),
    )

pub end_session-Sound :
    (id user now : ℕ) (reason : EndReason) (db : Db)
    → Sound db
    → Sound (end_session id user now reason db).1
unfolding end_session
end_session-Sound id user now reason db h =
    Option-outcome (λ (r : Result (Option Session) × Db). Sound r.1)
      (find_first (is_owned_active id user) db.sessions) _ _ (λ e. h)
      (λ a e.
        let holds = find_first-holds (is_owned_active id user) db.sessions {a = a} e in
        (ends-Sound (is_owned_active id user) id user now reason db {a = a} (λ x t. ground arith) e
          (ground arith) h))

pub expire_session_by_id-Sound :
    (id now : ℕ) (reason : EndReason) (db : Db)
    → Sound db
    → Sound (expire_session_by_id id now reason db).1
unfolding expire_session_by_id
expire_session_by_id-Sound id now reason db h =
    Option-outcome (λ (r : Result (Option Session) × Db). Sound r.1)
      (find_first (is_active_id id) db.sessions) _ _ (λ e. h)
      (λ a e.
        let holds = find_first-holds (is_active_id id) db.sessions {a = a} e in
        let mine = ==_refl a.user_id in
        (ends-Sound (is_active_id id) id a.user_id now reason db {a = a} (λ x t. ground arith) e
          (ground arith) h))

-- A write that leaves who sessions belong to and whether they are active, and the rows of
-- availability_live whose they are.
keeps-Sound :
    (f : Session → Session) (p : Session → Bool) (g : Live → Live) (l : Live → Bool) (db : Db)
    → ((x : Session) → (f x).id ≡ x.id)
    → ((x : Session) → (f x).user_id ≡ x.user_id)
    → ((x : Session) → (f x).ended_at ≡ x.ended_at)
    → ((x : Live) → (g x).user_id ≡ x.user_id)
    → All (λ s. is_capped s ≡ true) (update_where p f db.sessions)
    → Sound db
    → Sound (with_live (update_where l g db.live) (with_sessions (update_where p f db.sessions) db))
unfolding Sound
keeps-Sound f p g l db same_id same_user same_end same_live capped (d, one, same, caps, told) =
    let kept = keep_active f p db.sessions same_id same_user same_end in
    (
      Distinct-update (λ s. s.id) p f db.sessions same_id d,
      (λ u. omega (arith, one u, kept.0 u)),
      (λ u.
          let live =
            count-update_same (is_live_of u) l g db.live (λ x t. ap (λ v. v == u) (same_live x)) in
          omega (arith, same u, kept.0 u)),
      capped,
      (λ k. omega (arith, told k, kept.1 k)),
    )

caps_of : (db : Db) → Sound db → All (λ s. is_capped s ≡ true) db.sessions
unfolding Sound
caps_of db (d, one, same, caps, told) = caps

pub set_session_state-Sound :
    (id : ℕ) (state : ActivatableState) (now : ℕ) (db : Db)
    → Sound db
    → Sound (set_session_state id state now db).1
unfolding set_session_state
set_session_state-Sound id state now db h =
    Option-outcome (λ (r : Result (Option Session) × Db). Sound r.1)
      (find_first (is_active_id id) db.sessions) _ _ (λ e. h)
      (λ a e.
        (keeps-Sound (with_state state) (is_active_id id) (live_with_state state now)
          (is_live_of a.user_id) db (λ x. refl) (λ x. refl) (λ x. refl) (λ x. refl)
          (All-update (λ s. is_capped s ≡ true) (is_active_id id) (with_state state) db.sessions
            (λ x c t. c) (caps_of db h))
          h))

extended_all :
    (id user expires : ℕ) (sessions : List Session)
    → All (λ s. is_capped s ≡ true) sessions
    → All (λ x. is_id id x ≡ true → is_capped (extended expires x) ≡ true) sessions
    → All
        (λ s. is_capped s ≡ true)
        (update_where (is_owned_active id user) (extended expires) sessions)
extended_all id user expires [] c f = tt
extended_all id user expires (x ∷ xs) c f = (
  elim (Bool-cases (is_owned_active id user x)) [
    | inl t ↦
        subst (λ b. is_capped (if b then extended expires x else x) ≡ true) (sym t)
          (f.0 (ground arith))
    | inr n ↦ subst (λ b. is_capped (if b then extended expires x else x) ≡ true) (sym n) c.0
  ],
  extended_all id user expires xs c.1 f.1,
)

pub extend_session-Sound :
    (id user expires now : ℕ) (db : Db)
    → All (λ x. is_id id x ≡ true → is_capped (extended expires x) ≡ true) db.sessions
    → Sound db
    → Sound (extend_session id user expires now db).1
unfolding extend_session
extend_session-Sound id user expires now db fits h =
    Option-outcome (λ (r : Result (Option Session) × Db). Sound r.1)
      (find_first (is_owned_active id user) db.sessions) _ _ (λ e. h)
      (λ a e.
        (keeps-Sound (extended expires) (is_owned_active id user) (extend_live expires now)
          (is_live_of user) db (λ x. refl) (λ x. refl) (λ x. refl) (λ x. refl)
          (extended_all id user expires db.sessions (caps_of db h) fits) h))
