-- ===== src/E2ee/Sessions.antt =====
-- packages/client-web/src/lib/e2ee-ratchet.ts: the sessions of `E2eeService`, in memory and in localStorage.
use Prim.Native.String.{◌++◌, slice, len}
use text.Mathlib.Text.{starts_with}
use genchat.Base.{
  ℕ, String, ◌==◌, Bool, not, ◌&&◌, ◌||◌, Option, none, some, List, [], ◌∷◌, if◌then◌else◌, lookup,
  insert, filter, find?, take,
}
use genchat.Codec.Hex.{hex_to_bytes}
use genchat.WebStorage.{WebStorage, found, read, try_write}
use genchat.Mls.Platform.{Platform}

pub record Init : Type 0 where
  pub sender_identity_key_hex : String
  pub body : String

pub record Session : Type 0 where
  pub key : List ℕ
  pub shared_secret_hex : String
  pub peer_identity_key_hex : String
  pub pending_init_message : Option Init

pub record PersistedSession : Type 0 where
  pub shared_secret_hex : String
  pub peer_identity_key_hex : String
  pub canonical_context_id : String
  pub pending_init_message : Option Init

pub record Service : Type 0 where
  pub identity_bundle : Option String
  pub session_cache : List (String × Session)
  pub peer_identity_keys : List (String × String)
  pub storage : WebStorage PersistedSession

-- `includes(':')`, `split(':')`, and the order in which `sort` puts two texts.
pub record Texts : Type 0 where
  pub has_colon : String → Bool
  pub split_colons : String → List String
  pub precedes : String → String → Bool

-- The wasm module: a handshake with the pre-key bundle of a peer gives a shared secret and the message
-- that lets the peer have it too.
pub record Wasm : Type 0 where
  pub initiate : String → String → Option (String × Init)
  pub receive : String → Init → Option String
  pub bundle_identity : String → String

abbrev first_of : List String → String → String
first_of [] default = default
first_of (x ∷ xs) default = x

module _ (texts : Texts) where
  abbrev parts : String → List String
  parts s = filter (λ x. not (x == "") && not (x == "dm")) (texts.split_colons s)

  abbrev without_dm : String → String
  without_dm s = if starts_with s "dm:" then slice s 3 (len s) else s

  unfoldable pub extract_peer_id : String → String → String
  extract_peer_id conversation user =
      let clean = without_dm conversation in
      if texts.has_colon clean
      then elim (find? (λ x. not (x == user)) (parts clean)) [
        | some x ↦ x
        | none ↦ first_of (parts clean) clean
      ]
      else clean

  -- `[user, peer].sort().join(':')`
  abbrev pub sorted_pair : String → String → String
  sorted_pair a b = if texts.precedes a b then a ++ (":" ++ b) else b ++ (":" ++ a)

  -- With the peer given, if it is not empty.
  unfoldable pub get_canonical_context_id : String → String → String → String
  get_canonical_context_id conversation user explicit_peer =
      let peer = if explicit_peer == "" then extract_peer_id conversation user else explicit_peer in
      if starts_with conversation "chan_"
      then conversation
      else if not (peer == "") && (not (user == "") && not (peer == user))
      then sorted_pair user peer
      else conversation

abbrev pub storage_key : String → String → String
storage_key user peer = "genchat_pq_session_" ++ (user ++ ("_" ++ peer))

module _ (p : Platform) (texts : Texts) where
  -- A shared secret is a hexadecimal text.
  abbrev secret_bytes : String → List ℕ
  secret_bytes hex = elim (hex_to_bytes hex) [ none ↦ [] | some bytes ↦ bytes ]

  unfoldable pub derive_key_from_secret : String → String → List ℕ
  derive_key_from_secret secret context =
      p.derive_key (secret_bytes secret) "genchat_pqxdh_salt_2026"
        ("genchat_pq_session_" ++ context)

  abbrev known_key : String → String → List (String × String) → List (String × String)
  known_key peer key keys = if key == "" then keys else insert peer key keys

  abbrev kept_context : PersistedSession → String → String
  kept_context d expected =
      if texts.has_colon d.canonical_context_id || starts_with d.canonical_context_id "chan_"
      then d.canonical_context_id
      else expected

  abbrev pub restored_session : PersistedSession → String → Session
  restored_session d expected = record {
    key = derive_key_from_secret d.shared_secret_hex (kept_context d expected);
    shared_secret_hex = d.shared_secret_hex;
    peer_identity_key_hex = d.peer_identity_key_hex;
    pending_init_message = d.pending_init_message;
  }

  unfoldable pub get_or_restore_session :
      String → String → String → Service → Service × Option Session
  get_or_restore_session peer user conversation service =
      if peer == "" then (service, none) else elim (lookup peer service.session_cache) [
        | some s ↦ (service, some s)
        | none ↦ elim (read (storage_key user peer) service.storage) [
          | found d ↦
              let s = restored_session d (get_canonical_context_id texts conversation user peer) in
              (
                record service {
                  session_cache = insert peer s service.session_cache;
                  peer_identity_keys =
                      known_key peer d.peer_identity_key_hex service.peer_identity_keys;
                },
                some s,
              )
          | _ ↦ (service, none)
        ]
      ]

  unfoldable pub save_session : String → String → String → Session → Service → Service
  save_session peer user conversation s service = record service {
    session_cache = insert peer s service.session_cache;
    peer_identity_keys = known_key peer s.peer_identity_key_hex service.peer_identity_keys;
    storage =
        try_write (storage_key user peer)
          (record {
            shared_secret_hex = s.shared_secret_hex;
            peer_identity_key_hex = s.peer_identity_key_hex;
            canonical_context_id = get_canonical_context_id texts conversation user peer;
            pending_init_message = s.pending_init_message;
          })
          service.storage;
  }

  module _ (wasm : Wasm) where
    abbrev pub new_session : String → String → Init → String → Session
    new_session secret bundle init context = record {
      key = derive_key_from_secret secret context;
      shared_secret_hex = secret;
      peer_identity_key_hex = wasm.bundle_identity bundle;
      pending_init_message = some init;
    }

    -- An attempt for each answer, until one gives a session; `none` is a request that fails or gives nothing.
    unfoldable pub attempts :
        String
        → String
        → String
        → String
        → List (Option String)
        → Service
        → Service × Option Session
    attempts identity peer user conversation [] service = (service, none)
    attempts identity peer user conversation (none ∷ answers) service =
        attempts identity peer user conversation answers service
    attempts identity peer user conversation (some bundle ∷ answers) service =
        elim (wasm.initiate identity bundle) [
          | none ↦ attempts identity peer user conversation answers service
          | some (secret, init) ↦
              let s =
                new_session secret bundle init
                  (get_canonical_context_id texts conversation user peer) in
              (save_session peer user conversation s service, some s)
        ]

    -- Three attempts at most.
    unfoldable pub establish_session_with_retry :
        String → String → String → List (Option String) → Service → Service × Option Session
    establish_session_with_retry peer user conversation answers service =
        elim service.identity_bundle [
          | none ↦ (service, none)
          | some identity ↦ attempts identity peer user conversation (take 3 answers) service
        ]
