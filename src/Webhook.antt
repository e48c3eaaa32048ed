-- ===== src/Webhook.antt =====
-- The queue of the events that the payment provider reports, and the worker that processes them
-- (billing/infrastructure).
pub mod Queue
pub mod Worker
pub mod Life
pub mod Owner
pub mod Closed
pub mod Retry
mod Tests
