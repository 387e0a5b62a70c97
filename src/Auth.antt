-- ===== src/Auth.antt =====
-- backend/pullbackup/http_auth.py: the authentication stores, sessions and the login throttle.
pub mod Store
pub mod Session
pub mod Throttle
pub mod Identity
pub mod Gate
pub mod Login
mod Toy
mod Examples
