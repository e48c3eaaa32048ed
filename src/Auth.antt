-- ===== src/Auth.antt =====
-- The accounts of users: sessions, refresh tokens, links by mail and identities of a provider
-- (auth, users).
pub mod Types
pub mod User
pub mod Session
pub mod Store
pub mod Sessions
pub mod Rotation
pub mod Actions
pub mod Identity
pub mod Maintenance
pub mod Spared
pub mod Limit
pub mod Revoked
pub mod Reuse
pub mod Reset
mod Tests
