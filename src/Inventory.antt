-- ===== src/Inventory.antt =====
-- The inventory module of the back end (app/modules/inventory).
pub mod Quantity
pub mod Movement
pub mod Bounds
pub mod Effects
pub mod Rows
pub mod Values
pub mod Service
pub mod Accounting
pub mod Balanced
pub mod Thresholds
pub mod Writes
pub mod Steps
pub mod Opening
pub mod Ledger
mod Tests
