-- ===== src/Daemon.antt =====
-- The daemon: the records of internal/model, the store's tables, and the life of a dispatch.
pub mod Model
pub mod Store
pub mod Settle
pub mod Dispatch
pub mod Report
pub mod Control
pub mod Observe
pub mod Mailbox
pub mod Resolve
pub mod Requests
pub mod Occurrences
pub mod Schedules
pub mod Claims
pub mod Attempts
pub mod Wake
pub mod Watchdog
pub mod Send
pub mod Hub
pub mod Scheduling
pub mod Lifecycle
mod Examples
mod ScheduleExamples
mod WatchdogExamples
mod SendExamples
mod HubExamples
