-- ===== src/WorkOrder.antt =====
-- Work orders: the entity, its life, its schedule, the service over the store.
pub mod Types
pub mod Entity
pub mod Lifecycle
pub mod Edges
pub mod Slot
pub mod Store
pub mod Saved
pub mod Service
pub mod Agenda
pub mod Changes
pub mod Creation
pub mod Mirror
pub mod Tests
