-- ===== src/Cashier.antt =====
-- src/store/cashier/cashier.service.ts: the till of a store. The service's lock (`withLock`) makes
-- `pushOrder` and `refundOrder` single steps; `memberPay` holds it for its middle step only.
pub mod Refund
pub mod Push
pub mod Pricing
pub mod Pay
mod Tests
