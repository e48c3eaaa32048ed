-- ===== src/Workflow.antt =====
-- What the approval of a quote and the completion of an order do across the tables.
pub mod Approval
pub mod PublicDecision
pub mod PublicRequest
pub mod PublicRefusal
pub mod Started
pub mod PublicApproval
pub mod QuoteTable
pub mod Sharing
pub mod Shared
pub mod Tests
mod PublicTests
mod SharingTests
mod CancelTests
pub mod Completion
pub mod Completed
pub mod Cancellation
pub mod Canceled
