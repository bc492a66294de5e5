-- ===== src/Analytics.antt =====
-- The technical indicators of app/analytics.
pub mod Float
pub mod Samples
pub mod Indicators
pub mod Bands
pub mod Trend
