-- ===== src/Events.antt =====
-- The events of the meetings: the memory store, the service on it, and their delivery to a client.
pub mod Data
pub mod Store
pub mod Appending
pub mod Numbering
pub mod Logs
pub mod Service
pub mod Client
pub mod Order
pub mod Written
pub mod Synced
pub mod Delivery
pub mod Hub
pub mod Rooms
