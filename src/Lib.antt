-- ===== src/Lib.antt =====
-- Verification of the clients of genchat: the code under packages/client-web/src/lib that keeps the
-- state of encrypted groups and sessions, of calls, of stored messages, of the connections, of keys
-- and their transfer, of feature flags and of trusted contacts, the messages and the call of the page
-- pages/ChatPage.tsx beside it, the client database under
-- packages/client-db/src, and the key storage under packages/client-crypto/src.
--
-- The program. A client holds a group state (an epoch, a secret, a member list) for each channel and
-- moves it from epoch to epoch by commits, which it sends over the socket and takes from it; it
-- encrypts messages and derives media keys from the secret. Messages are kept in IndexedDB or, where
-- that is missing, in localStorage. Frames go through one reconnecting socket. Safety numbers of
-- contacts are compared by hand and remembered. Two users encrypt for each other under the secret of
-- a handshake, which the first message carries to its reader. Pages hold a second client of the gateway,
-- whose frames go to the handlers of each kind. A group call is a mesh of connections, whose media
-- keys the group's secret gives; a call between two is one connection. A backup of the keys is
-- encrypted under a passphrase, and a second device gets them under a key that both agree on. The
-- client database takes pushed messages in batches.
--
-- The parts.
--   Base          lists, Boolean tests, sorting, JavaScript maps as association lists.
--   WebStorage    localStorage: values as what JSON.parse gives, with unavailable storage, refused
--                 writes and unreadable texts. The parts take it with their own type of values.
--   Codec         bytes as hexadecimal text and back, by chunks (Hex) and by pairs (Pairs); the decimal text of
--                 a number.
--   Mls           mls-group-manager.ts (MlsGroupManager). Mls/Platform is Web Crypto, TextEncoder,
--                 btoa and atob, as a record of functions that is a parameter, with the documented
--                 behaviour that a theorem may assume as the record Lawful. Mls/State is
--                 getLocalGroupState, saveLocalGroupState and clearLocalGroupState over the two static
--                 maps and localStorage; Mls/Commit and its children are advanceEpoch, removeMember,
--                 leaveGroup (Advance), addMember (Add), applyIncomingCommit (Apply) and what they
--                 preserve (Converge, Invite, Tree, Known); Mls/Create is generateKeyPackage and
--                 createGroup, Mls/Welcome joinGroup; Mls/Message is
--                 getEpochApplicationKey, encryptGroupMessage, decryptGroupMessage and
--                 exportGroupMediaKey. An operation takes the manager and returns it, with the frames
--                 and requests it sends as a list of effects and a rejected promise as an outcome.
--   E2ee          e2ee-ratchet.ts (E2eeService). Sessions is the sessions in memory and in localStorage,
--                 the contexts that their keys are derived for and the handshake of the initiator;
--                 E2ee itself is encrypt and decrypt, in stages that follow the body of each. The
--                 wasm module and the operations on texts are parameters, Web Crypto is Mls/Platform.
--                 Laws, Messages and Fallback are what they guarantee.
--   LocalDb       local-storage-db.ts (LocalStorageDb). Message is StoredMessage and the changes made
--                 to one; Table is the object store of IndexedDB, records under their id in key
--                 order; Storage is the fallback; Store is the operations. How a transaction ends
--                 (committed, error event, not opened) is an argument.
--                 Search is the full-text search, over the operations on texts as a parameter;
--                 Conversations is the stored conversations.
--   LocalCache    local-cache.ts (LocalEncryptedCache), over LocalDb and Mls/Platform.
--   Calls         webrtc-manager.ts (WebRtcManager): a call between two, with Steps its runs, Candidates and
--                 Hangup what they guarantee, Media the tracks that a call captures, Servers the ICE
--                 servers, and Sdp optimizeAudioSdp on the code units of a description (Parameters, Lines,
--                 Breaks and Idempotent are its laws).
--   Chat          packages/client-web/src/pages/ChatPage.tsx: a message of the page (Messages), the handlers
--                 of what comes and of what the user does (Handlers), runs of them (Events), whose
--                 laws are Kept and Reactions, and the call that the page holds (Call), whose managers
--                 are those of Calls.
--   ClientDb      packages/client-db/src. Database is LocalCollection and LocalDatabase, with records as
--                 objects that are changed where they are; Sync is InboundSyncReconciler
--                 (sync/reconciler.ts), whose flushes are interrupted by calls and timers; Sync/Spec
--                 is the sequential specification that it refines; Outbox is OptimisticOutbox
--                 (sync/outbox.ts).
--   DeviceLinking device-linking.ts: the pairing of a second device. KeyBackup is key-backup.ts, MediaCrypto
--                 media-crypto.ts, all over Mls/Platform.
--   KeyStorage    packages/client-crypto/src/storage.ts (SecureKeyStorage); Refine is the map that it refines.
--   PreKeys       prekey-manager.ts (PreKeyManager).
--   Gateway       gateway-client.ts (GatewayClient): the connection, the frames (Frame), which handlers
--                 they go to (Dispatch), the methods that send (Requests), the base64 of texts and
--                 the delays. Reconnect has its steps and runs.
--   GroupCalls    group-webrtc-manager.ts (GroupWebRtcManager): the mesh, the candidates of one
--                 connection (Ice, whose laws are Complete and Overlap), the loudest speaker (Speaker), and steps and runs (Steps).
--   FeatureFlags  feature-flags.ts: the flags, and the components that follow them (Following).
--   SocketReconciler  ws-reconciler.ts (WsReconciler): pushes and read receipts that the socket brings,
--                 and what they do to the database.
--   Transport     ws-transport.ts (WsTransport): its methods and the callbacks of sockets and timers
--                 are the function step on one state, a run is a list of events in any order. A
--                 promise is a number, and how it is settled is recorded. Backoff is the delay.
--   Safety        safety-numbers.ts (SafetyNumberManager): computeSafetyNumber (Number) and the trust
--                 records (Trust). SHA-512, localeCompare and TextEncoder are parameters.
--   Tests         a platform that computes, concrete states, and every theorem that has arguments
--                 applied to them.
--
-- Bounds. Numbers are natural numbers: epochs, leaf indices, times and sequence numbers of JavaScript
-- are integers below 2 ^ 53, and the modelled code subtracts them only to compare them in a sort.
-- Math.random is a multiple of 2 ^ -53. The 32-bit value of a safety number's block keeps its reduction modulo 2 ^ 32. Decimal
-- texts are printed on fuel one above the number, which has no more digits than that. No other
-- function has fuel: all are by recursion on their lists. A run is a list of steps, so that what must happen in
-- the end is stated with the steps that it takes, counted.
--
-- What is assumed. Except where a flush, a connection or a call is a machine with steps, each method
-- runs to its end before another one begins; where the code awaits, the answers of servers, the clock
-- and random bytes are arguments. Handlers and callbacks do not throw, and the texts that
-- btoa encodes are Latin-1. Keys of peers and contacts are
-- not names that every JavaScript object has.
--
-- Not modelled. The upload and the fetch of key packages and pre-keys, which are requests; QR
-- codes; WebSocketTransport; SyncReconciler and the search of the
-- client database; the bit rates of a call's senders; the synthetic streams and the analysers of a call; the other
-- files of the directories, the React views but for the named parts of ChatPage (of
-- which the loading of the cache, the repeated decryption, the notices of the system, uploads and
-- group calls are left out), the servers and the Rust cryptography.
pub mod Base
pub mod Calls
pub mod Chat
pub mod ClientDb
pub mod DeviceLinking
pub mod E2ee
pub mod FeatureFlags
pub mod Gateway
pub mod GroupCalls
pub mod WebStorage
pub mod Codec
pub mod MediaCrypto
pub mod Mls
pub mod LocalDb
pub mod KeyBackup
pub mod KeyStorage
pub mod LocalCache
pub mod Transport
pub mod PreKeys
pub mod Safety
pub mod SocketReconciler
pub mod Tests
