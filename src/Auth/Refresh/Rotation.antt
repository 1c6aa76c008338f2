-- ===== src/Auth/Refresh/Rotation.antt =====
-- What a rotation (refresh.service.ts: rotateRow) puts on file, and what it does to the live tokens
-- of a family, those that are neither used nor revoked.
use convene.Common.{
  ℕ, ◌+◌, ◌≤◌, ◌<◌, find_first-by_key, count-update_found_same, ◌≡◌, Bool, ◌&&◌, none, some, List,
  [], ◌∷◌, ◌≢◌, All, Bool-cases, inl, inr, refl, ap, ◌∙◌, false, ==_iff, find_first-insert,
  find_first-update, find_first-holds, arith, ◌==◌, ==_refl, opt_eq, is_none, count, count-insert,
  Distinct, find_first, update_where, insert, count-update_found,
}
use convene.Errors.{ok}
use convene.Auth.Refresh.{
  RefreshToken, User, State, Draw, used_row, child_row, rotate_row, refresh, decide_refresh,
  outcome_of_row, first_use_or_replay, answer, replay_grace_window_ms,
}

abbrev pub is_live : ℕ → RefreshToken → Bool
is_live family r = r.family_id == family && is_none r.used_at && is_none r.revoked_at

module _ (hash_refresh_token : ℕ → ℕ) where
  -- What the exchange of a token that is on file, unused, unrevoked and unexpired writes.
  rotate_lem :
      (raw_token fingerprint now : ℕ) (draw : Draw) (s : State) (row : RefreshToken) (user : User)
      → find_first (λ r. r.token_hash == hash_refresh_token raw_token) s.tokens ≡ some row
      → row.revoked_at ≡ none
      → now ≤ row.expires_at
      → row.used_at ≡ none
      → find_first (λ u. u.id == row.user_id) s.users ≡ some user
      → refresh hash_refresh_token raw_token fingerprint now draw s ≡ (
        ok (record {
          access_token = record { sub = user.id; role = user.role; tv = user.token_version };
          refresh_token = draw.token;
        }),
        record s {
          tokens =
              insert
                (child_row hash_refresh_token row fingerprint now draw)
                (update_where (λ r. r.id == row.id) (used_row now) s.tokens);
        },
      )
  unfolding refresh decide_refresh outcome_of_row first_use_or_replay answer rotate_row
  rotate_lem raw_token fingerprint now draw s row user f v x u g = ground arith

  found_new :
      (parent : RefreshToken) (fingerprint now : ℕ) (draw : Draw) (rows : List RefreshToken)
      → All (λ r. r.token_hash ≢ hash_refresh_token draw.token) rows
      → find_first
          (λ r. r.token_hash == hash_refresh_token draw.token)
          (insert
            (child_row hash_refresh_token parent fingerprint now draw)
            (update_where (λ r. r.id == parent.id) (used_row now) rows))
        ≡ some (child_row hash_refresh_token parent fingerprint now draw)
  found_new parent fingerprint now draw [] h =
      ground (arith, ==_refl (hash_refresh_token draw.token))
  found_new parent fingerprint now draw (x ∷ xs) h =
      let rest = found_new parent fingerprint now draw xs h.1 in
      let other : (x.token_hash == hash_refresh_token draw.token) ≡ false =
        elim (Bool-cases (x.token_hash == hash_refresh_token draw.token)) [
          | inl t ↦ absurd (h.0 ((==_iff x.token_hash (hash_refresh_token draw.token)).0 t))
          | inr f ↦ f
        ] in
      ground (arith, rest, other)

  -- Where the ids of rows are distinct, a token that is on file, unused, unrevoked and unexpired, of
  -- a user on file, is exchanged for a new one, if no token on file has the digest of that one. The new one is on file, unused and unrevoked, for the same user and
  -- family, with the old one as its parent and thirty days from now as its expiry; the old one is
  -- on file as used now. The new token is in turn exchanged for a third at any time within its
  -- thirty days.
  pub refresh-rotates :
      (raw_token fingerprint now : ℕ) (draw : Draw) (s : State) (row : RefreshToken) (user : User)
      (later other : ℕ) (next : Draw)
      → Distinct (λ r. r.id) s.tokens
      → find_first (λ r. r.token_hash == hash_refresh_token raw_token) s.tokens ≡ some row
      → row.revoked_at ≡ none
      → now ≤ row.expires_at
      → row.used_at ≡ none
      → find_first (λ u. u.id == row.user_id) s.users ≡ some user
      → All (λ r. r.token_hash ≢ hash_refresh_token draw.token) s.tokens
      → later ≤ now + 2592000000
      → let out = refresh hash_refresh_token raw_token fingerprint now draw s in
        (out.0
          ≡ ok (record {
            access_token = record { sub = row.user_id; role = user.role; tv = user.token_version };
            refresh_token = draw.token;
          }))
        × ((new : RefreshToken) × (find_first
                (λ r. r.token_hash == hash_refresh_token draw.token)
                out.1.tokens
              ≡ some new)
            × (new.user_id ≡ row.user_id)
            × (new.family_id ≡ row.family_id)
            × (new.parent_id ≡ some row.id)
            × (new.used_at ≡ none)
            × (new.revoked_at ≡ none)
            × (new.expires_at ≡ now + 2592000000))
        × ((old : RefreshToken) × (find_first (λ r. r.id == row.id) out.1.tokens ≡ some old)
            × (old.token_hash ≡ row.token_hash)
            × (old.used_at ≡ some now))
        × ((refresh hash_refresh_token draw.token other later next out.1).0
            ≡ ok (record {
              access_token = record {
                sub = row.user_id;
                role = user.role;
                tv = user.token_version;
              };
              refresh_token = next.token;
            }))
  refresh-rotates raw_token fingerprint now draw s row user later other next d f v x u g fresh
        within =
      let child = child_row hash_refresh_token row fingerprint now draw in
      let rows = insert child (update_where (λ r. r.id == row.id) (used_row now) s.tokens) in
      let after : State = record s { tokens = rows } in
      let new_found = found_new row fingerprint now draw s.tokens fresh in
      let by_id =
        find_first-by_key (λ r. r.id) (λ r. r.token_hash == hash_refresh_token raw_token) s.tokens
          {a = row} d f in
      let old_found =
        find_first-insert (λ r. r.id == row.id) child
          (update_where (λ r. r.id == row.id) (used_row now) s.tokens) {a = used_row now row}
          (find_first-update (λ r. r.id) row.id (used_row now) s.tokens {a = row} (λ a. refl)
            by_id) in
      let owner : user.id ≡ row.user_id =
        (==_iff user.id row.user_id).0
          (find_first-holds (λ u. u.id == row.user_id) s.users {a = user} g) in
      let again =
        rotate_lem draw.token other later next after child user new_found refl within refl g in
      rw (rotate_lem raw_token fingerprint now draw s row user f v x u g) (
        ground arith,
        (child, new_found, refl, refl, refl, refl, refl, refl),
        (used_row now row, old_found, refl, refl),
        ap (λ r. r.0) again ∙ ground arith,
      )

  count-child :
      (parent : RefreshToken) (fingerprint now : ℕ) (draw : Draw) (rows : List RefreshToken)
      → count
          (is_live parent.family_id)
          (insert (child_row hash_refresh_token parent fingerprint now draw) rows)
        ≡ count (is_live parent.family_id) rows + 1
  count-child parent fingerprint now draw rows = ground (
    arith,
    count-insert (is_live parent.family_id)
        (child_row hash_refresh_token parent fingerprint now draw) rows,
    ==_refl parent.family_id,
  )

  -- Such an exchange leaves the family with as many live tokens as before.
  pub count-live-refresh :
      (raw_token fingerprint now : ℕ) (draw : Draw) (s : State) (row : RefreshToken) (user : User)
      → Distinct (λ r. r.id) s.tokens
      → find_first (λ r. r.token_hash == hash_refresh_token raw_token) s.tokens ≡ some row
      → row.revoked_at ≡ none
      → now ≤ row.expires_at
      → row.used_at ≡ none
      → find_first (λ u. u.id == row.user_id) s.users ≡ some user
      → count
          (is_live row.family_id)
          (refresh hash_refresh_token raw_token fingerprint now draw s).1.tokens
        ≡ count (is_live row.family_id) s.tokens
  count-live-refresh raw_token fingerprint now draw s row user d f v x u g =
      let rest =
        count-update_found (is_live row.family_id) (λ r. r.id) row.id (used_row now) s.tokens
          {a = row} d
          (find_first-by_key (λ r. r.id) (λ r. r.token_hash == hash_refresh_token raw_token)
            s.tokens d f)
          (ground (arith, ==_refl row.family_id)) (ground arith) in
      rw (rotate_lem raw_token fingerprint now draw s row user f v x u g) (
        omega (
          arith,
          rest,
          count-child row fingerprint now draw
              (update_where (λ r. r.id == row.id) (used_row now) s.tokens),
        ))

  -- A repeated token within its grace chains on to its child, also where that child has been used
  -- itself: the family then has one live token more than before.
  pub count-live-refresh_forks :
      (raw_token fingerprint now : ℕ) (draw : Draw) (s : State) (row child : RefreshToken)
      (used child_used : ℕ) (user : User)
      → Distinct (λ r. r.id) s.tokens
      → find_first (λ r. r.token_hash == hash_refresh_token raw_token) s.tokens ≡ some row
      → row.revoked_at ≡ none
      → now ≤ row.expires_at
      → row.used_at ≡ some used
      → now < used + replay_grace_window_ms
      → find_first (λ r. opt_eq r.parent_id row.id) s.tokens ≡ some child
      → child.device_fingerprint ≡ fingerprint
      → child.revoked_at ≡ none
      → child.used_at ≡ some child_used
      → find_first (λ u. u.id == child.user_id) s.users ≡ some user
      → count
          (is_live child.family_id)
          (refresh hash_refresh_token raw_token fingerprint now draw s).1.tokens
        ≡ count (is_live child.family_id) s.tokens + 1
  unfolding refresh decide_refresh outcome_of_row first_use_or_replay answer rotate_row
  count-live-refresh_forks raw_token fingerprint now draw s row child used child_used user d f v x u
        w c p r cu g =
      let here =
        find_first-by_key (λ r. r.id) (λ r. opt_eq r.parent_id row.id) s.tokens {a = child} d c in
      let kept =
        count-update_found_same (is_live child.family_id) (λ r. r.id) child.id (used_row now)
          s.tokens {a = child} d here (ground arith) in
      let marked = update_where (λ r. r.id == child.id) (used_row now) s.tokens in
      let grown : (refresh hash_refresh_token raw_token fingerprint now draw s).1.tokens
          ≡ insert (child_row hash_refresh_token child fingerprint now draw) marked =
        ground (arith, ==_refl fingerprint) in
      rw grown (omega (arith, kept, count-child child fingerprint now draw marked))
