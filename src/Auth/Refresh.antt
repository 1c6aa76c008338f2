-- ===== src/Auth/Refresh.antt =====
-- apps/api/src/modules/auth/services/refresh.service.ts over the refresh_tokens table
-- (packages/db/src/schema/auth.ts): rotation of refresh tokens, detection of their reuse, and the
-- ends of sessions. The digest of a token (token.service.ts: SHA-256) is a parameter; the token
-- and the row id that an insert draws are arguments, and an access token is given by its claims.
pub mod Dead
pub mod History
pub mod Rotation
mod Examples
use convene.Common.{
  ℕ, ◌+◌, ◌*◌, Bool, true, false, ◌&&◌, ◌||◌, not, Option, none, some, List, [], ◌∷◌, ◌==◌, ltb,
  opt_eq, is_some, is_none, any, if◌then◌else◌, select, find_first, update_where, insert,
}
use convene.Errors.{
  ErrorCode, M, pure, throw, modify, gets, transaction, app_error, unauthorized_app_error,
  not_found_app_error, or_throw, ◌>>=◌, ◌>>◌,
}

pub record RefreshToken : Type 0 where
  pub id : ℕ
  pub user_id : ℕ
  pub family_id : ℕ
  pub token_hash : ℕ
  pub device_fingerprint : ℕ
  pub device_label : Option ℕ
  pub ip_country : Option ℕ
  pub parent_id : Option ℕ
  pub used_at : Option ℕ
  pub revoked_at : Option ℕ
  pub expires_at : ℕ
  pub created_at : ℕ

pub record User : Type 0 where
  pub id : ℕ
  pub email : Option ℕ
  pub role : ℕ
  pub token_version : ℕ

-- The database, and what the service has told other parts: the users whose cached auth context it
-- has dropped, the addresses it has sent a security alert to, and the reuse events in the audit log.
pub record State : Type 0 where
  pub tokens : List RefreshToken
  pub users : List User
  pub invalidated : List ℕ
  pub alerts : List ℕ
  pub reuse_audited : List ℕ

pub record AccessTokenClaims : Type 0 where
  pub sub : ℕ
  pub role : ℕ
  pub tv : ℕ

pub record TokensResponse : Type 0 where
  pub access_token : AccessTokenClaims
  pub refresh_token : ℕ

pub data RefreshOutcome : Type 0 where
  rotated : TokensResponse → RefreshOutcome
  reuse_detected : ℕ → RefreshOutcome
  invalid : RefreshOutcome

-- What an insert draws: a row id and an opaque token.
pub record Draw : Type 0 where
  pub id : ℕ
  pub token : ℕ

-- Milliseconds.
abbrev pub refresh_token_ttl_ms : ℕ
refresh_token_ttl_ms = 30 * 24 * 60 * 60 * 1000

abbrev pub replay_grace_window_ms : ℕ
replay_grace_window_ms = 10 * 1000

abbrev pub used_row : ℕ → RefreshToken → RefreshToken
used_row now r = record r { used_at = some now }

abbrev pub revoked_row : ℕ → RefreshToken → RefreshToken
revoked_row now r = record r { revoked_at = some now }

-- The rows that `revokeFamily` writes.
abbrev pub in_family : ℕ → RefreshToken → Bool
in_family family r = r.family_id == family && is_none r.revoked_at

pub revoke_family : ℕ → ℕ → M State (Unit {0})
revoke_family family now =
    modify λ s. record s { tokens = update_where (in_family family) (revoked_row now) s.tokens }

abbrev pub bumped : User → User
bumped u = record u { token_version = u.token_version + 1 }

pub bump_token_version : ℕ → M State (Unit {0})
bump_token_version user =
    modify λ s. record s { users = update_where (λ u. u.id == user) bumped s.users }

module _ (hash_refresh_token : ℕ → ℕ) where
  -- The row that a rotation inserts.
  abbrev pub child_row : RefreshToken → ℕ → ℕ → Draw → RefreshToken
  child_row parent fingerprint now draw = record {
    id = draw.id;
    user_id = parent.user_id;
    family_id = parent.family_id;
    token_hash = hash_refresh_token draw.token;
    device_fingerprint = fingerprint;
    device_label = parent.device_label;
    ip_country = parent.ip_country;
    parent_id = some parent.id;
    used_at = none;
    revoked_at = none;
    expires_at = now + refresh_token_ttl_ms;
    created_at = now;
  }

  pub rotate_row : RefreshToken → ℕ → ℕ → Draw → M State TokensResponse
  rotate_row parent fingerprint now draw = do
    modify λ s. record s { tokens = update_where (λ r. r.id == parent.id) (used_row now) s.tokens }
    found ← gets λ s. find_first (λ u. u.id == parent.user_id) s.users
    user ← or_throw found (app_error unauthorized_app_error ErrorCode.invalid_refresh_token)
    modify λ s. record s { tokens = insert (child_row parent fingerprint now draw) s.tokens }
    pure (record {
      access_token = record { sub = user.id; role = user.role; tv = user.token_version };
      refresh_token = draw.token;
    })

  -- `child && withinGrace && child.deviceFingerprint === deviceFingerprint && !child.revokedAt`.
  pub graced : Option RefreshToken → ℕ → ℕ → ℕ → Option RefreshToken
  graced none used_at fingerprint now = none
  graced (some child) used_at fingerprint now =
      if ltb now (used_at + replay_grace_window_ms)
        && child.device_fingerprint == fingerprint
        && is_none child.revoked_at
      then some child
      else none

  as_rotated : M State TokensResponse → M State RefreshOutcome
  as_rotated m = do tokens ← m; pure (rotated tokens)

  -- A token that was used before: chain on to its child, or revoke the whole family.
  replay : Option RefreshToken → RefreshToken → ℕ → ℕ → Draw → M State RefreshOutcome
  unfolding as_rotated
  replay (some child) row fingerprint now draw = as_rotated (rotate_row child fingerprint now draw)
  replay none row fingerprint now draw = do
    revoke_family row.family_id now
    bump_token_version row.user_id
    pure (reuse_detected row.user_id)

  pub first_use_or_replay : Option ℕ → RefreshToken → ℕ → ℕ → Draw → M State RefreshOutcome
  unfolding as_rotated replay graced
  first_use_or_replay none row fingerprint now draw =
      as_rotated (rotate_row row fingerprint now draw)
  first_use_or_replay (some used_at) row fingerprint now draw = do
    child ← gets λ s. find_first (λ r. opt_eq r.parent_id row.id) s.tokens
    replay (graced child used_at fingerprint now) row fingerprint now draw

  abbrev is_invalid : RefreshToken → ℕ → Bool
  is_invalid row now = is_some row.revoked_at || ltb row.expires_at now

  pub outcome_of_row : Option RefreshToken → ℕ → ℕ → Draw → M State RefreshOutcome
  outcome_of_row none fingerprint now draw = pure invalid
  outcome_of_row (some row) fingerprint now draw =
      if is_invalid row now
      then pure invalid
      else first_use_or_replay row.used_at row fingerprint now draw

  -- What the transaction of `refresh` does and decides.
  pub decide_refresh : ℕ → ℕ → ℕ → Draw → M State RefreshOutcome
  decide_refresh raw_token fingerprint now draw = transaction do
    row ← gets λ s. find_first (λ r. r.token_hash == hash_refresh_token raw_token) s.tokens
    outcome_of_row row fingerprint now draw

  alert_if : Option ℕ → M State (Unit {0})
  alert_if none = pure tt
  alert_if (some email) = modify λ s. record s { alerts = insert email s.alerts }

  email_of : Option User → Option ℕ
  email_of none = none
  email_of (some u) = u.email

  -- What follows the transaction.
  pub answer : RefreshOutcome → M State TokensResponse
  unfolding alert_if email_of
  answer invalid = throw (app_error unauthorized_app_error ErrorCode.invalid_refresh_token)
  answer (reuse_detected user) = do
    modify λ s. record s { invalidated = insert user s.invalidated }
    found ← gets λ s. find_first (λ u. u.id == user) s.users
    alert_if (email_of found)
    modify λ s. record s { reuse_audited = insert user s.reuse_audited }
    throw (app_error unauthorized_app_error ErrorCode.token_reuse_detected)
  answer (rotated tokens) = pure tokens

  pub refresh : ℕ → ℕ → ℕ → Draw → M State TokensResponse
  refresh raw_token fingerprint now draw = do
    outcome ← decide_refresh raw_token fingerprint now draw
    answer outcome

  logout_row : Option RefreshToken → ℕ → M State (Unit {0})
  logout_row none now = pure tt
  logout_row (some row) now = revoke_family row.family_id now

  pub logout : ℕ → ℕ → M State (Unit {0})
  unfolding logout_row
  logout raw_token now = do
    row ← gets λ s. find_first (λ r. r.token_hash == hash_refresh_token raw_token) s.tokens
    logout_row row now

  -- Starts a family for a user whom another service has signed in.
  pub issue_new_family : ℕ → ℕ → ℕ → ℕ → ℕ → ℕ → Draw → M State TokensResponse
  issue_new_family user role token_version fingerprint family now draw = do
    modify λ s. record s {
      tokens =
          insert
            (record {
              id = draw.id;
              user_id = user;
              family_id = family;
              token_hash = hash_refresh_token draw.token;
              device_fingerprint = fingerprint;
              device_label = none;
              ip_country = none;
              parent_id = none;
              used_at = none;
              revoked_at = none;
              expires_at = now + refresh_token_ttl_ms;
              created_at = now;
            })
            s.tokens;
    }
    pure (record {
      access_token = record { sub = user; role = role; tv = token_version };
      refresh_token = draw.token;
    })

  pub find_family_id_by_raw_token : ℕ → M State (Option ℕ)
  find_family_id_by_raw_token raw_token = do
    row ← gets λ s. find_first (λ r. r.token_hash == hash_refresh_token raw_token) s.tokens
    pure (elim row [ none ↦ none | some r ↦ some r.family_id ])

abbrev pub user_rows : ℕ → RefreshToken → Bool
user_rows user r = r.user_id == user && is_none r.revoked_at

pub logout_all : ℕ → ℕ → M State (Unit {0})
logout_all user now =
    modify λ s. record s { tokens = update_where (user_rows user) (revoked_row now) s.tokens }

pub revoke_session : ℕ → ℕ → ℕ → M State (Unit {0})
revoke_session user session now = do
  found ← gets λ s. find_first (λ r. r.family_id == session && r.user_id == user) s.tokens
  row ← or_throw found (app_error not_found_app_error ErrorCode.session_not_found)
  revoke_family session now
