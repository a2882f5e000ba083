-- ===== src/Channels.antt =====
-- channels/: publishing events to the subscribers of channels, over the memory backend.
pub mod Subscriber
pub mod Last
pub mod Backlog
pub mod Stopping
pub mod Backend
pub mod Plugin
pub mod Members
pub mod Joining
pub mod Unserved
pub mod Leaving
pub mod History
pub mod Delivery
mod Tests
