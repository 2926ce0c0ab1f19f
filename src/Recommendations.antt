-- ===== src/Recommendations.antt =====
-- The reorder recommendations module of the back end (app/modules/recommendations).
pub mod Policy
pub mod Row
pub mod Tables
pub mod Service
pub mod Groups
pub mod Stored
pub mod Generation
pub mod Refused
mod Tests
