-- ===== src/LocalDb.antt =====
-- packages/client-web/src/lib/local-storage-db.ts: the messages that the client keeps, in IndexedDB or,
-- where that cannot be opened, in `localStorage`.
pub mod Message
pub mod Table
pub mod Storage
pub mod Store
pub mod Laws
pub mod Change
pub mod Erase
pub mod Purge
pub mod Search
pub mod Conversations
