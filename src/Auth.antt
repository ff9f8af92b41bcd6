-- ===== src/Auth.antt =====
-- internal/auth and the routes of internal/server that use it.
pub mod User
pub mod Token
pub mod Provider
pub mod Session
pub mod Login
