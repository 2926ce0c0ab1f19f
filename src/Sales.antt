-- ===== src/Sales.antt =====
-- The upload of sales as CSV files (app/modules/sales).
pub mod Status
pub mod Upload
pub mod Row
pub mod Rows
pub mod Service
pub mod Counts
pub mod Stored
pub mod Accepted
pub mod Valid
mod Tests
pub mod Transactions
pub mod Changes
pub mod Deleted
pub mod Final
pub mod Totals
