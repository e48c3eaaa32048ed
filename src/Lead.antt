-- ===== src/Lead.antt =====
-- The requests that visitors of a public profile send: the entity, its table, and the use cases.
pub mod Entity
pub mod Intake
pub mod Conversion
pub mod Normal
pub mod Creates
pub mod Converted
pub mod Again
mod Tests
