-- ===== src/Chat.antt =====
-- packages/client-web/src/pages/ChatPage.tsx: the messages that the page shows, what comes from peers and
-- what the user does to them, and what of it is written to the store of messages; and the call between
-- two that the page holds.
pub mod Messages
pub mod Handlers
pub mod Events
pub mod Reactions
pub mod Kept
pub mod Call
