-- ===== src/Tests.antt =====
-- Concrete inputs, and the theorems at them.
mod Sample
mod Commits
mod Messages
mod Store
mod Sockets
mod Trust
mod Groups
mod Sync
mod Gateway
mod Calls
mod Cache
mod E2ee
mod Outbox
mod Peer
mod Keys
mod Chat
