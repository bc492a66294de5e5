-- ===== src/Security.antt =====
-- The security primitives, app/security: the login throttle, the store of revoked tokens, the
-- one-time codes and the permissions.
pub mod Time
pub mod Words
pub mod Throttle
pub mod TokenStore
pub mod Tokens
pub mod Rbac
pub mod Totp
