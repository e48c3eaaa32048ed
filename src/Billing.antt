-- ===== src/Billing.antt =====
-- Billing: the change of plan, the update of the payment method, the subscription.
pub mod Types
pub mod PlanChange
pub mod Mutex
pub mod Exclusion
pub mod Acquire
mod MutexTests
pub mod PaymentMethodUpdate
pub mod Subscription
pub mod Processor
pub mod PlanLife
pub mod Reports
pub mod PaymentLife
pub mod Tests
