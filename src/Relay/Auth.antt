-- ===== src/Relay/Auth.antt =====
-- The login and the admin pages (crates/relay/src/auth).
pub mod Oidc
pub mod Exchange
pub mod Html
pub mod Dates
pub mod Admin
