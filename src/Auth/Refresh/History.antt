-- ===== src/Auth/Refresh/History.antt =====
-- Any sequence of session calls (refresh.service.ts) after a family has been revoked.
use convene.Common.{
  ℕ, ◌≡◌, ◌≢◌, true, some, List, [], ◌∷◌, arith, ◌==◌, is_some, All, find_first, find_first-All,
}
use convene.Errors.{ErrorCode, err, app_error, unauthorized_app_error}
use convene.Auth.Refresh.{
  RefreshToken, State, Draw, refresh, decide_refresh, outcome_of_row, answer, logout, logout_all,
  issue_new_family, revoke_session,
}
use convene.Auth.Refresh.Dead.{
  Dead, IsRevokedIn, refresh-Dead, logout-Dead, logout_all-Dead, issue_new_family-Dead,
  revoke_session-Dead,
}

pub data Call : Type 0 where
  refreshes : (raw_token fingerprint now : ℕ) (draw : Draw) → Call
  logs_out : (raw_token now : ℕ) → Call
  logs_out_all : (user now : ℕ) → Call
  revokes_session : (user session now : ℕ) → Call
  issues : (user role version fingerprint family now : ℕ) (draw : Draw) → Call

-- A new session family is drawn afresh.
abbrev pub IsElsewhere : ℕ → Call → Type 0
IsElsewhere family (issues user role version fingerprint other now draw) = other ≢ family
IsElsewhere family _ = Unit

module _ (hash_refresh_token : ℕ → ℕ) where
  unfoldable pub step : State → Call → State
  step s (refreshes raw_token fingerprint now draw) =
      (refresh hash_refresh_token raw_token fingerprint now draw s).1
  step s (logs_out raw_token now) = (logout hash_refresh_token raw_token now s).1
  step s (logs_out_all user now) = (logout_all user now s).1
  step s (revokes_session user session now) = (revoke_session user session now s).1
  step s (issues user role version fingerprint family now draw) =
      (issue_new_family hash_refresh_token user role version fingerprint family now draw s).1

  unfoldable pub run : State → List Call → State
  unfolding step
  run s [] = s
  run s (c ∷ cs) = run (step s c) cs

  step-Dead :
      (family : ℕ) (s : State) (c : Call)
      → IsElsewhere family c
      → Dead family s
      → Dead family (step s c)
  unfolding step
  step-Dead family s (refreshes raw_token fingerprint now draw) h d =
      refresh-Dead hash_refresh_token family raw_token fingerprint now draw s d
  step-Dead family s (logs_out raw_token now) h d =
      logout-Dead hash_refresh_token family raw_token now s d
  step-Dead family s (logs_out_all user now) h d =
      logout_all-Dead hash_refresh_token family user now s d
  step-Dead family s (revokes_session user session now) h d =
      revoke_session-Dead hash_refresh_token family user session now s d
  step-Dead family s (issues user role version fingerprint other now draw) h d =
      issue_new_family-Dead hash_refresh_token family user role version fingerprint other now draw s
        h d

  run-Dead :
      (family : ℕ) (s : State) (cs : List Call)
      → All (IsElsewhere family) cs
      → Dead family s
      → Dead family (run s cs)
  unfolding run
  run-Dead family s [] h d = d
  run-Dead family s (c ∷ cs) h d = run-Dead family (step s c) cs h.1 (step-Dead family s c h.0 d)

  refresh-revoked :
      (raw_token fingerprint now : ℕ) (draw : Draw) (s : State) (row : RefreshToken)
      → find_first (λ r. r.token_hash == hash_refresh_token raw_token) s.tokens ≡ some row
      → is_some row.revoked_at ≡ true
      → refresh hash_refresh_token raw_token fingerprint now draw s
        ≡ (err (app_error unauthorized_app_error ErrorCode.invalid_refresh_token), s)
  unfolding refresh decide_refresh outcome_of_row answer
  refresh-revoked raw_token fingerprint now draw s row f v = ground arith

  -- Once every token of a family is revoked, then after any further calls (new sessions being
  -- issued into other families) a refresh with any token of the family throws
  -- INVALID_REFRESH_TOKEN and changes nothing, at any time and on any device.
  pub refresh-run-Dead :
      (family : ℕ) (s : State) (cs : List Call)
      → Dead family s
      → All (IsElsewhere family) cs
      → (raw_token fingerprint now : ℕ) (draw : Draw) (row : RefreshToken)
      → let s' = run s cs in
        find_first (λ r. r.token_hash == hash_refresh_token raw_token) s'.tokens ≡ some row
        → row.family_id ≡ family
        → refresh hash_refresh_token raw_token fingerprint now draw s'
          ≡ (err (app_error unauthorized_app_error ErrorCode.invalid_refresh_token), s')
  unfolding Dead
  refresh-run-Dead family s cs d h raw_token fingerprint now draw row f e =
      let revoked =
        find_first-All (IsRevokedIn family) (λ r. r.token_hash == hash_refresh_token raw_token)
          (run s cs).tokens (run-Dead family s cs h d) f in
      refresh-revoked raw_token fingerprint now draw (run s cs) row f (revoked e)
