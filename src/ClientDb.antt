-- ===== src/ClientDb.antt =====
-- packages/client-db/src: the in-memory database of the clients, and its outbox and reconciler.
pub mod Database
pub mod Sync
pub mod Outbox
