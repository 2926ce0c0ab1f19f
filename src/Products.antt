-- ===== src/Products.antt =====
-- Products and their categories (app/modules/products).
pub mod Status
pub mod Sku
pub mod Values
pub mod Rows
pub mod Service
pub mod Unique
pub mod Operations
pub mod History
pub mod Prices
pub mod Archive
pub mod Canonical
mod Tests
pub mod Writes
