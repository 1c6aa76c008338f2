-- ===== src/Auth/Refresh/Dead.antt =====
-- What the detection of a reused token does to its family (refresh.service.ts), and that a revoked
-- family stays revoked.
use convene.Common.{
  ℕ, ◌≤◌, ◌≡◌, ◌≢◌, refl, sym, subst, inl, inr, Bool, true, Option, none, some, arith, ◌==◌, opt_eq,
  is_some, All, All-insert, All-update, update-All, find_first, find_first-All, update_where,
  insert, Option-cases,
}
use convene.Errors.{ErrorCode, err, app_error, unauthorized_app_error}
use convene.Auth.Refresh.{
  RefreshToken, State, Draw, RefreshOutcome, rotated, reuse_detected, invalid, bumped, revoked_row,
  used_row, child_row, in_family, user_rows, revoke_family, bump_token_version, rotate_row, graced,
  decide_refresh, first_use_or_replay, outcome_of_row, answer, refresh, logout, logout_all,
  issue_new_family, revoke_session,
}

abbrev pub IsRevokedIn : ℕ → RefreshToken → Type 0
IsRevokedIn family r = r.family_id ≡ family → is_some r.revoked_at ≡ true

-- Every token of the family is revoked.
unfoldable pub Dead : ℕ → State → Type 0
Dead family s = All (IsRevokedIn family) s.tokens

module _ (hash_refresh_token : ℕ → ℕ) where
  -- A used token that comes again outside its grace is answered by TOKEN_REUSE_DETECTED, every
  -- token of its family is revoked, its user's token version goes up by one, and the reuse is
  -- audited and the user's cached auth context dropped.
  pub refresh-reuse :
      (raw_token fingerprint now : ℕ) (draw : Draw) (s : State) (row : RefreshToken) (used : ℕ)
      → find_first (λ r. r.token_hash == hash_refresh_token raw_token) s.tokens ≡ some row
      → row.revoked_at ≡ none
      → now ≤ row.expires_at
      → row.used_at ≡ some used
      → graced hash_refresh_token
          (find_first (λ r. opt_eq r.parent_id row.id) s.tokens)
          used
          fingerprint
          now
        ≡ none
      → let r = refresh hash_refresh_token raw_token fingerprint now draw s in
        (r.0 ≡ err (app_error unauthorized_app_error ErrorCode.token_reuse_detected))
        × (Dead row.family_id r.1)
        × (r.1.users ≡ update_where (λ u. u.id == row.user_id) bumped s.users)
        × (r.1.invalidated ≡ insert row.user_id s.invalidated)
        × (r.1.reuse_audited ≡ insert row.user_id s.reuse_audited)
  unfolding refresh decide_refresh outcome_of_row first_use_or_replay answer revoke_family
      bump_token_version Dead
  refresh-reuse raw_token fingerprint now draw s row used f v x u g =
      let dead =
        update-All (IsRevokedIn row.family_id) (in_family row.family_id) (revoked_row now) s.tokens
          (λ r t e. refl) (λ r t e. ground arith) in
      let revoked : (refresh hash_refresh_token raw_token fingerprint now draw s).1.tokens
          ≡ update_where (in_family row.family_id) (revoked_row now) s.tokens =
        ground arith in
      (
        ground arith,
        subst (All (IsRevokedIn row.family_id)) (sym revoked) dead,
        ground arith,
        ground arith,
        ground arith,
      )

module _ (hash_refresh_token : ℕ → ℕ) (family : ℕ) where
  -- A revocation of whatever rows.
  revoke-Dead :
      (p : RefreshToken → Bool) (now : ℕ) (s : State)
      → Dead family s
      → Dead family (record s { tokens = update_where p (revoked_row now) s.tokens })
  unfolding Dead
  revoke-Dead p now s d =
      All-update (IsRevokedIn family) p (revoked_row now) s.tokens (λ r h t e. refl) d

  pub revoke_family-Dead :
      (other now : ℕ) (s : State) → Dead family s → Dead family (revoke_family other now s).1
  unfolding revoke_family
  revoke_family-Dead other now s d = revoke-Dead (in_family other) now s d

  pub logout_all-Dead :
      (user now : ℕ) (s : State) → Dead family s → Dead family (logout_all user now s).1
  unfolding logout_all
  logout_all-Dead user now s d = revoke-Dead (user_rows user) now s d

  bump_token_version-Dead :
      (user : ℕ) (s : State) → Dead family s → Dead family (bump_token_version user s).1
  unfolding bump_token_version Dead
  bump_token_version-Dead user s d = d

  -- A rotation of a row that is not revoked inserts into another family.
  rotate_row-Dead :
      (parent : RefreshToken) (fingerprint now : ℕ) (draw : Draw) (s : State)
      → parent.family_id ≢ family
      → Dead family s
      → Dead family (rotate_row hash_refresh_token parent fingerprint now draw s).1
  unfolding rotate_row Dead
  rotate_row-Dead parent fingerprint now draw s n d =
      let used =
        All-update (IsRevokedIn family) (λ r. r.id == parent.id) (used_row now) s.tokens
          (λ r h t. h) d in
      let child = child_row hash_refresh_token parent fingerprint now draw in
      elim (Option-cases (find_first (λ u. u.id == parent.user_id) s.users)) [
        | inl e ↦
            let same : (rotate_row hash_refresh_token parent fingerprint now draw s).1.tokens
                ≡ update_where (λ r. r.id == parent.id) (used_row now) s.tokens =
              ground arith in
            subst (All (IsRevokedIn family)) (sym same) used
        | inr (u, e) ↦
            let same : (rotate_row hash_refresh_token parent fingerprint now draw s).1.tokens
                ≡ insert child (update_where (λ r. r.id == parent.id) (used_row now) s.tokens) =
              ground arith in
            subst (All (IsRevokedIn family)) (sym same)
              (All-insert (IsRevokedIn family) child _ used (λ q. absurd (n q)))
      ]

  -- A row of the table that is not revoked belongs to another family.
  not_in_family :
      (p : RefreshToken → Bool) (s : State) (row : RefreshToken)
      → Dead family s
      → find_first p s.tokens ≡ some row
      → row.revoked_at ≡ none
      → row.family_id ≢ family
  unfolding Dead
  not_in_family p s row d f v e =
      let revoked = find_first-All (IsRevokedIn family) p s.tokens d f in cc (revoked e, v)

  child_not_in_family :
      (s : State) (row child : RefreshToken) (used fingerprint now : ℕ)
      → Dead family s
      → find_first (λ r. opt_eq r.parent_id row.id) s.tokens ≡ some child
      → graced hash_refresh_token (some child) used fingerprint now ≡ some child
      → child.family_id ≢ family
  unfolding graced
  child_not_in_family s row child used fingerprint now d f g =
      not_in_family (λ r. opt_eq r.parent_id row.id) s child d f (ground arith)

  first_use_or_replay-Dead :
      (used : Option ℕ) (row : RefreshToken) (fingerprint now : ℕ) (draw : Draw) (s : State)
      → row.family_id ≢ family
      → Dead family s
      → Dead family (first_use_or_replay hash_refresh_token used row fingerprint now draw s).1
  unfolding first_use_or_replay
  first_use_or_replay-Dead none row fingerprint now draw s n d =
      ground (arith, rotate_row-Dead row fingerprint now draw s n d)
  first_use_or_replay-Dead (some used) row fingerprint now draw s n d =
      elim (Option-cases (find_first (λ r. opt_eq r.parent_id row.id) s.tokens)) [
        | inl e ↦ ground (
          arith,
          revoke_family-Dead row.family_id now s d,
          bump_token_version-Dead row.user_id (revoke_family row.family_id now s).1,
        )
        | inr (child, e) ↦ ground (
          arith,
          revoke_family-Dead row.family_id now s d,
          bump_token_version-Dead row.user_id (revoke_family row.family_id now s).1,
          child_not_in_family s row child used fingerprint now d e,
          rotate_row-Dead child fingerprint now draw s,
        )
      ]

  decide_refresh-Dead :
      (raw_token fingerprint now : ℕ) (draw : Draw) (s : State)
      → Dead family s
      → Dead family (decide_refresh hash_refresh_token raw_token fingerprint now draw s).1
  unfolding decide_refresh outcome_of_row
  decide_refresh-Dead raw_token fingerprint now draw s d =
      elim (Option-cases
        (find_first (λ r. r.token_hash == hash_refresh_token raw_token) s.tokens)) [
          | inl e ↦ ground arith
          | inr (row, e) ↦ ground (
            arith,
            not_in_family (λ r. r.token_hash == hash_refresh_token raw_token) s row d e,
            first_use_or_replay-Dead row.used_at row fingerprint now draw s,
          )
        ]

  tokens-answer :
      (o : RefreshOutcome) (s : State) → (answer hash_refresh_token o s).1.tokens ≡ s.tokens
  unfolding answer
  tokens-answer (rotated t) s = refl
  tokens-answer (reuse_detected user) s = ground arith
  tokens-answer invalid s = refl

  answer-Dead :
      (o : RefreshOutcome) (s : State)
      → Dead family s
      → Dead family (answer hash_refresh_token o s).1
  unfolding Dead
  answer-Dead o s d = subst (All (IsRevokedIn family)) (sym (tokens-answer o s)) d

  pub refresh-Dead :
      (raw_token fingerprint now : ℕ) (draw : Draw) (s : State)
      → Dead family s
      → Dead family (refresh hash_refresh_token raw_token fingerprint now draw s).1
  unfolding refresh
  refresh-Dead raw_token fingerprint now draw s d =
      let decided = decide_refresh-Dead raw_token fingerprint now draw s d in
      grind (arith, answer-Dead)

  pub logout-Dead :
      (raw_token now : ℕ) (s : State)
      → Dead family s
      → Dead family (logout hash_refresh_token raw_token now s).1
  unfolding logout
  logout-Dead raw_token now s d = grind (arith, revoke_family-Dead)

  pub revoke_session-Dead :
      (user session now : ℕ) (s : State)
      → Dead family s
      → Dead family (revoke_session user session now s).1
  unfolding revoke_session
  revoke_session-Dead user session now s d = grind (arith, revoke_family-Dead)

  pub issue_new_family-Dead :
      (user role version fingerprint other now : ℕ) (draw : Draw) (s : State)
      → other ≢ family
      → Dead family s
      → Dead family
          (issue_new_family hash_refresh_token user role version fingerprint other now draw s).1
  unfolding issue_new_family Dead
  issue_new_family-Dead user role version fingerprint other now draw s n d =
      All-insert (IsRevokedIn family) _ s.tokens d (λ q. absurd (n q))
