-- ===== src/Notification.antt =====
-- The notifications by mail: the outbox, the worker that sends them, and the automations that
-- are dropped when they no longer apply.
pub mod Outbox
pub mod Automation
pub mod Worker
pub mod Claims
pub mod Limit
pub mod Finished
pub mod FollowUp
mod Tests
