-- ===== src/Schedule.antt =====
-- internal/schedule: cron-style expressions and their occurrences in a time zone.
pub mod Fields
pub mod Calendar
pub mod Search
pub mod Zone
pub mod Every
pub mod Instant
pub mod Expr
mod Examples
