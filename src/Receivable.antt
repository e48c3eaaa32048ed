-- ===== src/Receivable.antt =====
-- Receivables: the entity, its payments, the service with the use cases over the repository.
pub mod Types
pub mod Validation
pub mod Payment
pub mod Entity
pub mod Balance
pub mod Repository
pub mod Service
pub mod Charge
pub mod Automation
pub mod Charges
pub mod Billed
pub mod Ledger
pub mod Bookings
pub mod Reversal
pub mod Replay
pub mod ListStore
pub mod Tests
pub mod ChargeTests
