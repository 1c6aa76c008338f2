-- ===== src/Infra/Keys.antt =====
-- apps/api/src/infra/redis/keys.ts: the one place where Redis keys are built. A text is the list of
-- its code units.
use Prim.Native.Char.{code}
use Prim.Native.String.{String}
use convene.Common.{
  ℕ, ◌≡◌, ◌≢◌, refl, Option, none, some, List, [], ◌∷◌, ◌++◌, arith, ◌==◌, All, if◌then◌else◌,
}

abbrev pub codes : String → List ℕ
codes String.[] = []
codes (String.◌∷◌ c s) = code c ∷ codes s

abbrev pub colon : ℕ
colon = 58

-- `segments.join(":")` after the version.
join : List ℕ → List (List ℕ) → List ℕ
join s [] = s
join s (t ∷ ts) = s ++ (colon ∷ join t ts)

pub build_key : List (List ℕ) → List ℕ
unfolding join
build_key segments = join (codes "v1") segments

unfoldable pub idempotency_key : List ℕ → List ℕ → List ℕ
unfolding build_key
idempotency_key route header = build_key (codes "idempotency" ∷ route ∷ header ∷ [])

unfoldable pub rate_limit_key : List ℕ → List ℕ → List ℕ
unfolding build_key
rate_limit_key scope part = build_key (codes "rate-limit" ∷ scope ∷ part ∷ [])

unfoldable pub login_lockout_key : List ℕ → List ℕ → List ℕ
unfolding build_key
login_lockout_key identifier ip = build_key (codes "login-lockout" ∷ identifier ∷ ip ∷ [])

unfoldable pub auth_context_key : List ℕ → List ℕ
unfolding build_key
auth_context_key user = build_key (codes "auth-context" ∷ user ∷ [])

unfoldable pub availability_key : List ℕ → List ℕ
unfolding build_key
availability_key user = build_key (codes "avail" ∷ user ∷ [])

unfoldable pub presence_key : List ℕ → List ℕ
unfolding build_key
presence_key user = build_key (codes "presence" ∷ user ∷ [])

unfoldable pub connection_request_daily_quota_key : List ℕ → List ℕ → List ℕ
unfolding build_key
connection_request_daily_quota_key user date = build_key (codes "conn-req-daily" ∷ user ∷ date ∷ [])

unfoldable pub connection_request_note_hash_key : List ℕ → List ℕ
unfolding build_key
connection_request_note_hash_key sender = build_key (codes "conn-req-note-hash" ∷ sender ∷ [])

unfoldable pub connection_request_soft_block_key : List ℕ → List ℕ
unfolding build_key
connection_request_soft_block_key sender = build_key (codes "conn-req-soft-block" ∷ sender ∷ [])

abbrev availability_key_prefix : List ℕ
availability_key_prefix = codes "v1:avail:"

-- `key.slice(prefix.length)` if `key.startsWith(prefix)`.
pub strip_prefix : List ℕ → List ℕ → Option (List ℕ)
strip_prefix [] key = some key
strip_prefix (c ∷ cs) [] = none
strip_prefix (c ∷ cs) (d ∷ key) = let rest = strip_prefix cs key in if c == d then rest else none

non_empty : Option (List ℕ) → Option (List ℕ)
non_empty none = none
non_empty (some []) = none
non_empty (some (c ∷ cs)) = some (c ∷ cs)

pub parse_availability_key_user_id : List ℕ → Option (List ℕ)
unfolding strip_prefix non_empty
parse_availability_key_user_id key = non_empty (strip_prefix availability_key_prefix key)

strip_prefix-append : (p key : List ℕ) → strip_prefix p (p ++ key) ≡ some key
unfolding strip_prefix
strip_prefix-append [] key = refl
strip_prefix-append (c ∷ p) key = ground (arith, strip_prefix-append p key)

-- The listener reads back the user id that an availability key was built from.
pub parse-availability_key :
    (c : ℕ) (user : List ℕ)
    → parse_availability_key_user_id (availability_key (c ∷ user)) ≡ some (c ∷ user)
unfolding parse_availability_key_user_id availability_key
parse-availability_key c user = refl

strip_prefix_sound : (p key rest : List ℕ) → strip_prefix p key ≡ some rest → key ≡ p ++ rest
unfolding strip_prefix
strip_prefix_sound [] key rest h = ground arith
strip_prefix_sound (c ∷ p) [] rest h = cc
strip_prefix_sound (c ∷ p) (d ∷ key) rest h = ground (arith, strip_prefix_sound p key rest)

non_empty_sound : (o : Option (List ℕ)) (user : List ℕ) → non_empty o ≡ some user → o ≡ some user
unfolding non_empty
non_empty_sound none user h = h
non_empty_sound (some []) user h = cc
non_empty_sound (some (c ∷ cs)) user h = h

-- It reads a user id from no other key: whatever it accepts is the availability key of what it
-- returns.
pub availability_key-parse :
    (key user : List ℕ)
    → parse_availability_key_user_id key ≡ some user
    → key ≡ availability_key user
unfolding parse_availability_key_user_id availability_key
availability_key-parse key user h =
    strip_prefix_sound availability_key_prefix key user (non_empty_sound _ user h)

append_cancel : (p x y : List ℕ) → p ++ x ≡ p ++ y → x ≡ y
append_cancel [] x y h = h
append_cancel (c ∷ p) x y h = append_cancel p x y (cc)

-- The first colon tells where a text without one ends.
split_unique :
    (a b x y : List ℕ)
    → All (λ c. c ≢ colon) a
    → All (λ c. c ≢ colon) b
    → a ++ (colon ∷ x) ≡ b ++ (colon ∷ y)
    → (a ≡ b) × (x ≡ y)
split_unique [] [] x y h k e = (refl, cc)
split_unique [] (d ∷ b) x y h k e = absurd (k.0 (cc))
split_unique (c ∷ a) [] x y h k e = absurd (h.0 (cc))
split_unique (c ∷ a) (d ∷ b) x y h k e = let (p, q) = split_unique a b x y h.1 k.1 (cc) in (cc, q)

-- Two pairs of an identifier without a colon and an address share a lockout key only if they are
-- the same pair.
pub login_lockout_key-injective :
    (a b x y : List ℕ)
    → All (λ c. c ≢ colon) a
    → All (λ c. c ≢ colon) b
    → login_lockout_key a x ≡ login_lockout_key b y
    → (a ≡ b) × (x ≡ y)
unfolding login_lockout_key
login_lockout_key-injective a b x y h k e =
    split_unique a b x y h k (append_cancel (codes "v1:login-lockout:") _ _ e)
