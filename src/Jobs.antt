-- ===== src/Jobs.antt =====
-- The background jobs module of the back end (app/modules/jobs).
pub mod Status
pub mod Transitions
pub mod Summary
pub mod Rows
pub mod Dispatcher
pub mod Service
pub mod Operations
pub mod Worker
pub mod Slots
pub mod Active
pub mod Keeps
pub mod Marks
pub mod Single
pub mod History
pub mod Replay
pub mod Found
pub mod Cancelled
pub mod Execution
mod Tests
