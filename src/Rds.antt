-- ===== src/Rds.antt =====
-- internal/rds: the store of user sessions and offline messages, a cache in memory over Redis.
pub mod Defs
pub mod Store
pub mod Messages
pub mod Delivery
pub mod Offline
pub mod Fetch
pub mod Mailbox
pub mod Exit
