-- ===== src/Api.antt =====
-- The HTTP layer of app/api: the rate limiter and the address of the client.
pub mod RateLimiter
pub mod ClientAddress
pub mod CurrentUser
