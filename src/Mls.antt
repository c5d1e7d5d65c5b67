-- ===== src/Mls.antt =====
-- packages/client-web/src/lib/mls-group-manager.ts: the group manager, its state and its operations.
pub mod Platform
pub mod State
pub mod Commit
pub mod Welcome
pub mod Message
pub mod Create
