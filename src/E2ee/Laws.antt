-- ===== src/E2ee/Laws.antt =====
-- What is encrypted for a peer is read by that peer.
use genchat.Base.{
  ℕ, String, ◌==◌, ◌≡◌, refl, ap, subst, ◌∙◌, Bool, true, false, not, Option, some, List, ◌∷◌,
  arith, eq_iff,
}
use genchat.Codec.Hex.{bytes_to_hex, hex_to_bytes-bytes_to_hex}
use genchat.Mls.Platform.{Platform, Lawful, IsBytes}
use genchat.E2ee.Sessions.{
  Init, Session, Service, Texts, Wasm, get_canonical_context_id, derive_key_from_secret,
  get_or_restore_session, save_session,
}
use genchat.E2ee.{
  Envelope, parsed, opened, sealed, decrypt, decrypt_envelope, decrypt_from, decrypt_restored,
  decrypt_received, receive_init, open_with, unsealed, received_session, result,
  is_fallback_envelope,
}

-- Both users derive the same context, whatever order `sort` puts them in, so long as it is an order.
pub context-symmetric :
    (texts : Texts) (conversation user peer : String)
    → (user == "") ≡ false
    → (peer == "") ≡ false
    → (user == peer) ≡ false
    → texts.precedes peer user ≡ not (texts.precedes user peer)
    → get_canonical_context_id texts conversation user peer
      ≡ get_canonical_context_id texts conversation peer user
unfolding get_canonical_context_id
context-symmetric texts conversation user peer u q d o =
    ground (arith, eq_iff user peer, eq_iff peer user)

module _ (p : Platform) (texts : Texts) where
  get_or_restore_session-identity :
      (peer user conversation : String) (service : Service)
      → (get_or_restore_session p texts peer user conversation service).0.identity_bundle
        ≡ service.identity_bundle
  unfolding get_or_restore_session
  get_or_restore_session-identity peer user conversation service = ground arith

  module _ (lawful : Lawful p) where
    unsealed-sealed :
        (text conversation user peer : String) (sequence b : ℕ) (iv : List ℕ) (s : Session)
        (init : Option Init) (wasm : Wasm)
        → IsBytes (b ∷ iv)
        → p.decode (p.encode text) ≡ text
        → unsealed p texts wasm
            (sealed p texts wasm text conversation user peer sequence (b ∷ iv) (some s) init)
            s.key
          ≡ some text
    unfolding sealed
    unsealed-sealed text conversation user peer sequence b iv s init wasm h e =
        rw
          (
            unsealed,
            sealed,
            hex_to_bytes-bytes_to_hex b iv h,
            lawful.atob-btoa (p.encrypt s.key (b ∷ iv) (p.encode text))
                (lawful.encrypt_bytes s.key (b ∷ iv) (p.encode text)),
            lawful.decrypt-encrypt s.key (b ∷ iv) (p.encode text),
            e,
          )
          refl

    module _ (wasm : Wasm) where
      receive_init-some :
          (peer user conversation identity secret : String) (init : Init) (service : Service)
          → service.identity_bundle ≡ some identity
          → wasm.receive identity init ≡ some secret
          → let s = received_session p texts wasm peer user conversation secret init in
            receive_init p texts wasm peer user conversation (some init) service
            ≡ (save_session p texts peer user conversation s service, some s)
      unfolding receive_init
      receive_init-some peer user conversation identity secret init service e r =
          simp (receive_init, e, r)

      pub open_with-clear :
          (e : Envelope) (peer user conversation text : String) (from_peer fallback : Bool)
          (key : List ℕ) (service : Service)
          → unsealed p texts wasm e key ≡ some text
          → open_with p texts wasm e peer user conversation from_peer fallback key service
            ≡ (service, result p texts wasm fallback (some text))
      unfolding open_with
      open_with-clear e peer user conversation text from_peer fallback key service h =
          rw (open_with, h) refl

      pub decrypt_envelope-named :
          (e : Envelope) (given user : String) (service : Service)
          → (e.conversation_id == "") ≡ false
          → (e.sender_id == "") ≡ false
          → (e.sender_id == user) ≡ false
          → decrypt_envelope p texts wasm e given user service
            ≡ decrypt_from p texts wasm e e.sender_id e.sender_id user e.conversation_id service
      unfolding decrypt_envelope
      decrypt_envelope-named e given user service c s d = rw (decrypt_envelope, c, s, d) refl

      pub decrypt_from-peer :
          (e : Envelope) (sender peer user conversation : String) (service : Service)
          → (sender == user) ≡ false
          → decrypt_from p texts wasm e sender peer user conversation service
            ≡ decrypt_restored p texts wasm e sender peer user conversation true
                (get_or_restore_session p texts peer user conversation service)
      unfolding decrypt_from
      decrypt_from-peer e sender peer user conversation service d = rw (decrypt_from, d) refl

      decrypt_restored-init :
          (e : Envelope) (sender peer user conversation : String) (f : Session) (received : Service)
          (restored : Service × Option Session)
          → receive_init p texts wasm peer user conversation e.init_message restored.0
            ≡ (received, some f)
          → is_fallback_envelope p texts wasm e ≡ false
          → decrypt_restored p texts wasm e sender peer user conversation true restored
            ≡ open_with p texts wasm e peer user conversation true false f.key received
      unfolding decrypt_restored decrypt_received
      decrypt_restored-init e sender peer user conversation f received restored r n =
          rw (decrypt_restored, r, decrypt_received, n, r) refl

      -- An envelope of a peer with an init message that gives a session whose key opens it.
      decrypt_envelope-clear :
          (e : Envelope) (given user text : String) (f : Session) (received service : Service)
          → (e.conversation_id == "") ≡ false
          → (e.sender_id == "") ≡ false
          → (e.sender_id == user) ≡ false
          → is_fallback_envelope p texts wasm e ≡ false
          → receive_init p texts wasm e.sender_id user e.conversation_id e.init_message
              (get_or_restore_session p texts e.sender_id user e.conversation_id service).0
            ≡ (received, some f)
          → unsealed p texts wasm e f.key ≡ some text
          → (decrypt_envelope p texts wasm e given user service).1
            ≡ result p texts wasm false (some text)
      decrypt_envelope-clear e given user text f received service c s d n r h =
          let conversation = e.conversation_id in
          let sender = e.sender_id in
          ap (λ x. x.1)
            (decrypt_envelope-named e given user service c s d
              ∙ decrypt_from-peer e sender sender user conversation service d
              ∙ decrypt_restored-init e sender sender user conversation f received
                  (get_or_restore_session p texts sender user conversation service) r n
              ∙ open_with-clear e sender user conversation text true false f.key received h)

      -- The envelope of a session whose init message the receiver's identity takes, to the same secret.
      pub decrypt-sealed :
          (text conversation user peer identity secret : String) (sequence b : ℕ) (iv : List ℕ)
          (s : Session) (init : Init) (service : Service)
          → IsBytes (b ∷ iv)
          → p.decode (p.encode text) ≡ text
          → (user == "") ≡ false
          → (conversation == "") ≡ false
          → (user == peer) ≡ false
          → (bytes_to_hex (b ∷ iv) == "") ≡ false
          → (p.btoa (p.encrypt s.key (b ∷ iv) (p.encode text)) == "") ≡ false
          → s.key
            ≡ derive_key_from_secret p texts secret
                (get_canonical_context_id texts conversation peer user)
          → service.identity_bundle ≡ some identity
          → wasm.receive identity init ≡ some secret
          → (decrypt p texts wasm
              (parsed (
                sealed p texts wasm text conversation user peer sequence
                  (b ∷ iv)
                  (some s)
                  (some init)))
              conversation
              peer
              service).1
            ≡ record { text = opened text; is_encrypted = true; is_insecure_fallback = false }
      unfolding decrypt decrypt_envelope sealed open_with
      decrypt-sealed text conversation user peer identity secret sequence b iv s init service h e u
            c d i t k ids r =
          let e' =
            sealed p texts wasm text conversation user peer sequence (b ∷ iv) (some s)
              (some init) in
          let restored = (get_or_restore_session p texts user peer conversation service).0 in
          let received = received_session p texts wasm user peer conversation secret init in
          let clear : unsealed p texts wasm e' received.key ≡ some text =
            subst (λ x. unsealed p texts wasm e' x ≡ some text) k
              (unsealed-sealed text conversation user peer sequence b iv s (some init) wasm h e) in
          rw (decrypt, i, t)
            (decrypt_envelope-clear e' conversation peer text received
              (save_session p texts user peer conversation received restored) service c u d refl
              (receive_init-some user peer conversation identity secret init restored
                (get_or_restore_session-identity user peer conversation service ∙ ids) r)
              clear)
