-- ===== src/Auth/Refresh/Examples.antt =====
-- Session calls on one family of three tokens: 1 was used at 1,000 and 2 at 1,500; 3 is live.
use convene.Common.{
  find_first, ℕ, ◌+◌, ◌≡◌, refl, Option, none, some, [], ◌∷◌, ◌==◌, arith, count, update_where,
}
use convene.Errors.{ErrorCode, ok, err, app_error, unauthorized_app_error}
use convene.Auth.Refresh.{RefreshToken, User, State, Draw, bumped, refresh, graced}
use convene.Auth.Refresh.Dead.{Dead, refresh-reuse}
use convene.Auth.Refresh.History.{run, refresh-run-Dead}
use convene.Auth.Refresh.Rotation.{
  is_live, refresh-rotates, count-live-refresh, count-live-refresh_forks,
}

abbrev digest : ℕ → ℕ
digest t = t + 1000

abbrev row : ℕ → Option ℕ → Option ℕ → RefreshToken
row id parent used = record {
  id = id;
  user_id = 7;
  family_id = 50;
  token_hash = digest id;
  device_fingerprint = 5;
  device_label = none;
  ip_country = none;
  parent_id = parent;
  used_at = used;
  revoked_at = none;
  expires_at = 100000;
  created_at = 0;
}

abbrev session : State
session = record {
  tokens = row 1 none (some 1000) ∷ row 2 (some 1) (some 1500) ∷ row 3 (some 2) none ∷ [];
  users = record { id = 7; email = some 70; role = 0; token_version = 4 } ∷ [];
  invalidated = [];
  alerts = [];
  reuse_audited = [];
}

abbrev draw : Draw
draw = record { id = 4; token = 4 }

-- Token 1 comes again after 49 seconds.
abbrev reused : State
reused = (refresh digest 1 5 50000 draw session).1

reuse_is_detected : Dead 50 reused
unfolding graced
reuse_is_detected =
    (refresh-reuse digest 1 5 50000 draw session (row 1 none (some 1000)) 1000 refl refl
      (omega arith) refl refl).1

refresh-reuse_example : reused.users ≡ update_where (λ u. u.id == 7) bumped session.users
unfolding graced
refresh-reuse_example =
    (refresh-reuse digest 1 5 50000 draw session (row 1 none (some 1000)) 1000 refl refl
      (omega arith) refl refl).2

abbrev dead_session : State
dead_session = record session {
  tokens = record (row 3 (some 2) none) { revoked_at = some 50000 } ∷ [];
}

refresh-run-Dead_example : refresh digest 3 5 60000 draw (run digest dead_session []) ≡ (
  err (app_error unauthorized_app_error ErrorCode.invalid_refresh_token),
  run digest dead_session [],
)
unfolding Dead run
refresh-run-Dead_example =
    refresh-run-Dead digest 50 dead_session [] ((λ _. refl), tt) tt 3 5 60000 draw
      (record (row 3 (some 2) none) { revoked_at = some 50000 }) refl refl

abbrev user : User
user = record { id = 7; email = some 70; role = 0; token_version = 4 }

abbrev after : State
after = (refresh digest 3 6 2000 draw session).1

-- The new token is exchanged itself a day later, on another device.
refresh-rotates_example :
    ((refresh digest 3 6 2000 draw session).0
      ≡ ok (record { access_token = record { sub = 7; role = 0; tv = 4 }; refresh_token = 4 }))
    × ((new : RefreshToken) × (find_first (λ r. r.token_hash == 1004) after.tokens ≡ some new)
        × (new.user_id ≡ 7)
        × (new.family_id ≡ 50)
        × (new.parent_id ≡ some 3)
        × (new.used_at ≡ none)
        × (new.revoked_at ≡ none)
        × (new.expires_at ≡ 2592002000))
    × ((old : RefreshToken) × (find_first (λ r. r.id == 3) after.tokens ≡ some old)
        × (old.token_hash ≡ 1003)
        × (old.used_at ≡ some 2000))
    × ((refresh digest 4 9 86402000 (record { id = 5; token = 5 }) after).0
        ≡ ok (record { access_token = record { sub = 7; role = 0; tv = 4 }; refresh_token = 5 }))
refresh-rotates_example =
    refresh-rotates digest 3 6 2000 draw session (row 3 (some 2) none) user 86402000 9
      (record { id = 5; token = 5 }) (omega arith) refl refl (omega arith) refl refl
      ((λ e. omega arith), ((λ e. omega arith), ((λ e. omega arith), tt))) (omega arith)

count-live-refresh_example : count (is_live 50) (refresh digest 3 6 2000 draw session).1.tokens ≡ 1
count-live-refresh_example =
    count-live-refresh digest 3 6 2000 draw session (row 3 (some 2) none) user (omega arith) refl
      refl (omega arith) refl refl

-- Token 1 comes again within its ten seconds, when its child has been used: two live tokens.
count-live-refresh_forks_example :
    count (is_live 50) (refresh digest 1 5 2000 draw session).1.tokens ≡ 2
count-live-refresh_forks_example =
    count-live-refresh_forks digest 1 5 2000 draw session (row 1 none (some 1000))
      (row 2 (some 1) (some 1500)) 1000 1500 user (omega arith) refl refl (omega arith) refl
      (omega arith) refl refl refl refl refl
