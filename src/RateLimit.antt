-- ===== src/RateLimit.antt =====
-- apps/api/src/common/rate-limit: the matrix of limits (policies.ts) and the dimensions of a key
-- (rate-limit.guard.ts). Texts are lists of code units, times are milliseconds. The children have the
-- script, the fallback of a process, and the guard.
pub mod Log
pub mod Window
pub mod Script
pub mod Guard
pub mod Memory
mod Examples
use convene.Common.{ℕ, ◌*◌, Option, none, some, List, [], ◌∷◌, ◌++◌, or_else}
use convene.Infra.Keys.{codes}

pub data RateLimitKeyDimension : Type 0 where
  user ip identifier conversation : RateLimitKeyDimension

pub record RateLimitPolicy : Type 0 where
  pub limit : ℕ
  pub window_seconds : ℕ
  pub key_dimensions : List RateLimitKeyDimension

pub data RateLimitScope : Type 0 where
  global_authenticated unauthenticated register_ip : RateLimitScope
  login_attempts_identifier login_attempts_ip otp_send_hourly otp_send_daily : RateLimitScope
  password_reset connection_requests_velocity connection_requests_velocity_pro : RateLimitScope
  messages_per_conversation messages_per_user discovery_feed search_free : RateLimitScope
  search_recruiter media_upload ai_features reports admin_actions : RateLimitScope

abbrev policy : ℕ → ℕ → RateLimitKeyDimension → RateLimitPolicy
policy limit seconds dimension = record {
  limit = limit;
  window_seconds = seconds;
  key_dimensions = dimension ∷ [];
}

unfoldable pub rate_limit_policies : RateLimitScope → RateLimitPolicy
rate_limit_policies global_authenticated = policy 300 60 user
rate_limit_policies unauthenticated = policy 60 60 ip
rate_limit_policies register_ip = policy 5 (60 * 60) ip
rate_limit_policies login_attempts_identifier = policy 5 (15 * 60) identifier
rate_limit_policies login_attempts_ip = policy 20 (60 * 60) ip
rate_limit_policies otp_send_hourly = policy 3 (60 * 60) identifier
rate_limit_policies otp_send_daily = policy 10 (24 * 60 * 60) identifier
rate_limit_policies password_reset = policy 3 (60 * 60) identifier
rate_limit_policies connection_requests_velocity = policy 5 60 user
rate_limit_policies connection_requests_velocity_pro = policy 8 60 user
rate_limit_policies messages_per_conversation = policy 60 60 conversation
rate_limit_policies messages_per_user = policy 200 60 user
rate_limit_policies discovery_feed = policy 120 (60 * 60) user
rate_limit_policies search_free = policy 60 (60 * 60) user
rate_limit_policies search_recruiter = policy 600 (60 * 60) user
rate_limit_policies media_upload = policy 30 (60 * 60) user
rate_limit_policies ai_features = policy 20 (60 * 60) user
rate_limit_policies reports = policy 20 (24 * 60 * 60) user
rate_limit_policies admin_actions = policy 200 (60 * 60) user

abbrev pub scope_name : RateLimitScope → List ℕ
scope_name global_authenticated = codes "global-authenticated"
scope_name unauthenticated = codes "unauthenticated"
scope_name register_ip = codes "register-ip"
scope_name login_attempts_identifier = codes "login-attempts-identifier"
scope_name login_attempts_ip = codes "login-attempts-ip"
scope_name otp_send_hourly = codes "otp-send-hourly"
scope_name otp_send_daily = codes "otp-send-daily"
scope_name password_reset = codes "password-reset"
scope_name connection_requests_velocity = codes "connection-requests-velocity"
scope_name connection_requests_velocity_pro = codes "connection-requests-velocity-pro"
scope_name messages_per_conversation = codes "messages-per-conversation"
scope_name messages_per_user = codes "messages-per-user"
scope_name discovery_feed = codes "discovery-feed"
scope_name search_free = codes "search-free"
scope_name search_recruiter = codes "search-recruiter"
scope_name media_upload = codes "media-upload"
scope_name ai_features = codes "ai-features"
scope_name reports = codes "reports"
scope_name admin_actions = codes "admin-actions"

-- What a key is built from. `forwarded` is the first address of the header x-forwarded-for;
-- `body_identifier` is `body.identifier ?? body.email ?? body.phone` where that is a text.
pub record RateLimitRequest : Type 0 where
  pub ip_address : Option (List ℕ)
  pub forwarded : Option (List ℕ)
  pub user_id : Option (List ℕ)
  pub body_identifier : Option (List ℕ)
  pub conversation_id : Option (List ℕ)

-- A text that is missing or empty (`!text`).
abbrev pub non_empty_text : Option (List ℕ) → Option (List ℕ)
non_empty_text none = none
non_empty_text (some []) = none
non_empty_text (some (c ∷ cs)) = some (c ∷ cs)

-- `none` stands for the error that is thrown where the request has no such value.
unfoldable pub extract_dimension_value : RateLimitKeyDimension → RateLimitRequest → Option (List ℕ)
extract_dimension_value ip request =
    some (or_else request.ip_address (or_else request.forwarded (codes "unknown-ip")))
extract_dimension_value user request = non_empty_text request.user_id
extract_dimension_value identifier request = request.body_identifier
extract_dimension_value conversation request = non_empty_text request.conversation_id

abbrev pub dimension_name : RateLimitKeyDimension → List ℕ
dimension_name user = codes "user"
dimension_name ip = codes "ip"
dimension_name identifier = codes "identifier"
dimension_name conversation = codes "conversation"

abbrev equals_sign : ℕ
equals_sign = 61

abbrev comma : ℕ
comma = 44

abbrev prepend : List ℕ → Option (List ℕ) → List RateLimitKeyDimension → Option (List ℕ)
prepend part none ds = none
prepend part (some rest) [] = some part
prepend part (some rest) (d ∷ ds) = some (part ++ (comma ∷ rest))

-- `keyDimensions.map(d => `${d}=${value}`).join(",")`.
unfoldable pub build_composite_key_part :
    List RateLimitKeyDimension → RateLimitRequest → Option (List ℕ)
build_composite_key_part [] request = some []
build_composite_key_part (d ∷ ds) request =
    let rest = build_composite_key_part ds request in
    elim (extract_dimension_value d request) [
      | none ↦ none
      | some value ↦ prepend (dimension_name d ++ (equals_sign ∷ value)) rest ds
    ]
