-- ===== src/E2ee.antt =====
-- packages/client-web/src/lib/e2ee-ratchet.ts: `E2eeService`, the encrypted messages between two users. Web
-- Crypto is Mls/Platform; the wasm module, the requests and what the code asks of texts are parameters. A
-- frame is taken after `JSON.parse`. The user is given with every call, and handshakes with one
-- peer come one after the other.
pub mod Sessions
pub mod Laws
pub mod Messages
pub mod Fallback
use Prim.Native.String.{◌++◌}
use genchat.Base.{
  ℕ, String, ◌==◌, Bool, true, false, not, ◌&&◌, ◌||◌, Option, none, some, List, [], ◌∷◌,
  if◌then◌else◌,
}
use genchat.Codec.Hex.{bytes_to_hex, hex_to_bytes}
use genchat.Mls.Platform.{Platform}
use genchat.E2ee.Sessions.{
  Init, Session, Service, Texts, Wasm, extract_peer_id, get_canonical_context_id,
  derive_key_from_secret, get_or_restore_session, save_session, establish_session_with_retry,
}

pub data Protocol : Type 0 where
  pq_v1 fallback_v1 other_protocol : Protocol

pub record Envelope : Type 0 where
  pub protocol : Protocol
  pub conversation_id : String
  pub sequence_num : ℕ
  pub sender_id : String
  pub recipient_id : String
  pub init_message : Option Init
  pub iv_hex : String
  pub ciphertext_base64 : String
  pub insecure_fallback : Bool

-- A text that comes: none or one that does not begin with a brace, one that `JSON.parse` refuses, or the
-- envelope that it gives.
pub data Ciphertext : Type 0 where
  plain refused : Ciphertext
  parsed : Envelope → Ciphertext

-- The text of a result: what was given, the notice of a pending session, or what was decrypted.
pub data ResultText : Type 0 where
  raw pending_notice : ResultText
  opened : String → ResultText

pub record DecryptResult : Type 0 where
  pub text : ResultText
  pub is_encrypted : Bool
  pub is_insecure_fallback : Bool

abbrev pub not_opened : DecryptResult
not_opened = record { text = pending_notice; is_encrypted = false; is_insecure_fallback = false }

module _ (p : Platform) (texts : Texts) (wasm : Wasm) where
  -- The key of a fallback message, of public values alone.
  unfoldable pub fallback_key : String → String → List ℕ
  fallback_key conversation sender =
      p.derive_key (p.encode ("genchat_fallback_" ++ (conversation ++ ("_" ++ sender))))
        "genchat_fallback_salt" ("fallback_" ++ conversation)

  -- The envelope of a message under a session, or under the fallback key without one.
  unfoldable pub sealed :
      String → String → String → String → ℕ → List ℕ → Option Session → Option Init → Envelope
  sealed plaintext conversation user peer sequence iv session init =
      let is_fallback : Bool = elim session [ none ↦ true | some s ↦ false ] in
      let key : List ℕ = elim session [ none ↦ fallback_key conversation user | some s ↦ s.key ] in
      record {
        protocol = if is_fallback then fallback_v1 else pq_v1;
        conversation_id = conversation;
        sequence_num = sequence;
        sender_id = user;
        recipient_id = peer;
        init_message = init;
        iv_hex = bytes_to_hex iv;
        ciphertext_base64 = p.btoa (p.encrypt key iv (p.encode plaintext));
        insecure_fallback = is_fallback;
      }

  -- What `encrypt` does once a session is there or a handshake was tried; `none` is the exception of a
  -- session that is not there.
  unfoldable pub encrypt_with :
      String
      → String
      → String
      → String
      → ℕ
      → Bool
      → List ℕ
      → Service × Option Session
      → Service × Option Envelope
  encrypt_with plaintext conversation user peer sequence allow_fallback iv made = elim made.1 [
    | some s ↦ (
      made.0,
      some (sealed plaintext conversation user peer sequence iv (some s) s.pending_init_message),
    )
    | none ↦
        if not (peer == user) && not allow_fallback
        then (made.0, none)
        else (made.0, some (sealed plaintext conversation user peer sequence iv none none))
  ]

  -- A handshake is tried where no session was kept.
  unfoldable pub with_session :
      String
      → String
      → String
      → List (Option String)
      → Service × Option Session
      → Service × Option Session
  with_session conversation user peer answers restored = elim restored.1 [
    | some s ↦ restored
    | none ↦
        if peer == user
        then restored
        else establish_session_with_retry p texts wasm peer user conversation answers restored.0
  ]

  -- `encrypt` for a user, with the answers to its requests for pre-keys
  unfoldable pub encrypt :
      String
      → String
      → String
      → ℕ
      → Bool
      → List ℕ
      → List (Option String)
      → Service
      → Service × Option Envelope
  encrypt plaintext conversation user sequence allow_fallback iv answers service =
      let peer = extract_peer_id texts conversation user in
      encrypt_with plaintext conversation user peer sequence allow_fallback iv (
        with_session conversation user peer answers
          (get_or_restore_session p texts peer user conversation service))

  abbrev pub received_session : String → String → String → String → Init → Session
  received_session peer user conversation secret init = record {
    key =
        derive_key_from_secret p texts secret
          (get_canonical_context_id texts conversation user peer);
    shared_secret_hex = secret;
    peer_identity_key_hex = init.sender_identity_key_hex;
    pending_init_message = none;
  }

  -- A message from a peer with an init message: the session that it gives, saved.
  unfoldable pub receive_init :
      String → String → String → Option Init → Service → Service × Option Session
  receive_init peer user conversation none service = (service, none)
  receive_init peer user conversation (some init) service = elim service.identity_bundle [
    | none ↦ (service, none)
    | some identity ↦ elim (wasm.receive identity init) [
      | none ↦ (service, none)
      | some secret ↦
          let s = received_session peer user conversation secret init in
          (save_session p texts peer user conversation s service, some s)
    ]
  ]

  -- `or` of two sessions, the later one first.
  abbrev pub latest : Option Session → Option Session → Option Session
  latest none before = before
  latest (some s) before = some s

  abbrev pub unsealed : Envelope → List ℕ → Option String
  unsealed e key = elim (hex_to_bytes e.iv_hex) [
    | none ↦ none
    | some iv ↦ elim (p.atob e.ciphertext_base64) [
      | none ↦ none
      | some bytes ↦ elim (p.decrypt key iv bytes) [ none ↦ none | some t ↦ some (p.decode t) ]
    ]
  ]

  abbrev given_or : String → String → String
  given_or a b = if a == "" then b else a

  abbrev pub is_fallback_envelope : Envelope → Bool
  is_fallback_envelope e = elim e.protocol [ fallback_v1 ↦ true | _ ↦ e.insecure_fallback ]

  abbrev pub result : Bool → Option String → DecryptResult
  result fallback none = not_opened
  result fallback (some t) = record {
    text = opened t;
    is_encrypted = not fallback;
    is_insecure_fallback = fallback;
  }

  -- The text under the key of a fresh handshake, whose session is kept only if the text opens.
  abbrev again : Envelope → Bool → Service × Option Session → Service → Service × DecryptResult
  again e fallback (received, none) service = (service, not_opened)
  again e fallback (received, some f) service = elim (unsealed e f.key) [
    | none ↦ (service, not_opened)
    | some t ↦ (received, result fallback (some t))
  ]

  -- The text under a key, and again with a fresh handshake if that fails and the message, of a peer, has an
  -- init message.
  unfoldable pub open_with :
      Envelope → String → String → String → Bool → Bool → List ℕ → Service → Service × DecryptResult
  open_with e peer user conversation from_peer fallback key service = elim (unsealed e key) [
    | some t ↦ (service, result fallback (some t))
    | none ↦
        again e fallback
          (if from_peer
            then receive_init peer user conversation e.init_message service
            else (service, none))
          service
  ]

  abbrev is_envelope : Envelope → Bool
  is_envelope e = elim e.protocol [
    | other_protocol ↦ false
    | _ ↦ not (e.iv_hex == "") && not (e.ciphertext_base64 == "")
  ]

  -- What `decrypt` does once a handshake may have given a session.
  unfoldable pub decrypt_received :
      Envelope
      → String
      → String
      → String
      → String
      → Bool
      → Option Session
      → Service × Option Session
      → Service × DecryptResult
  decrypt_received e sender peer user conversation from_peer session received =
      if is_fallback_envelope e
      then open_with e peer user conversation from_peer true (fallback_key conversation sender)
          received.0
      else elim (latest received.1 session) [
        | none ↦ (received.0, not_opened)
        | some s ↦ open_with e peer user conversation from_peer false s.key received.0
      ]

  -- What it does once the session of the peer was looked for.
  unfoldable pub decrypt_restored :
      Envelope
      → String
      → String
      → String
      → String
      → Bool
      → Service × Option Session
      → Service × DecryptResult
  decrypt_restored e sender peer user conversation from_peer restored =
      decrypt_received e sender peer user conversation from_peer restored.1 (
        if from_peer
        then receive_init peer user conversation e.init_message restored.0
        else (restored.0, none))

  abbrev pub peer_of : Envelope → String → String → String → String
  peer_of e sender given user =
      if (sender == user) && (not (sender == "") && not (user == ""))
      then given_or e.recipient_id (extract_peer_id texts given user)
      else sender

  -- `decrypt` of an envelope: with its conversation and sender, or those given where it has none.
  unfoldable pub decrypt_from :
      Envelope → String → String → String → String → Service → Service × DecryptResult
  decrypt_from e sender peer user conversation service =
      decrypt_restored e sender peer user conversation (not (sender == user))
        (get_or_restore_session p texts peer user conversation service)

  unfoldable pub decrypt_envelope : Envelope → String → String → Service → Service × DecryptResult
  decrypt_envelope e given user service =
      let sender = given_or e.sender_id (extract_peer_id texts given user) in
      decrypt_from e sender (peer_of e sender given user) user (given_or e.conversation_id given)
        service

  unfoldable pub decrypt : Ciphertext → String → String → Service → Service × DecryptResult
  decrypt refused given user service = (service, not_opened)
  decrypt plain given user service =
      (service, record { text = raw; is_encrypted = false; is_insecure_fallback = false })
  decrypt (parsed e) given user service =
      if is_envelope e
      then decrypt_envelope e given user service
      else (service, record { text = raw; is_encrypted = false; is_insecure_fallback = false })
