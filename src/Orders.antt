-- ===== src/Orders.antt =====
-- apps/api/src/services/order.service.ts: the life of an order, one module for each stage.
pub mod Tests
pub mod Status
pub mod Rows
pub mod Placing
pub mod Pending
pub mod Filling
pub mod Closing
pub mod Steps
