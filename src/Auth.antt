-- ===== src/Auth.antt =====
-- The authentication service, app/services/auth_service.py.
pub mod State
pub mod TwoFactor
pub mod Login
pub mod Sessions
mod Samples
