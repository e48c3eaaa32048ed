-- ===== src/Quote.antt =====
-- Quotes: the entity with its items, the public share link, and the properties of both.
pub mod Types
pub mod Item
pub mod Entity
pub mod Share
pub mod Quantity
pub mod Invariant
pub mod Lifecycle
pub mod Sharing
pub mod Store
pub mod Saved
pub mod Service
pub mod Table
pub mod Samples
pub mod Tests
mod TableTests
