-- ===== src/Auth.antt =====
-- apps/api/src/modules/auth: sign-in sessions, one-time passwords and the login lockout.
pub mod Refresh
pub mod Lockout
pub mod Otp
