-- ===== src/Contact.antt =====
-- The normal forms of addresses and numbers by which people are reached: src/shared/text.
pub mod Email
pub mod Phone
pub mod Normal
