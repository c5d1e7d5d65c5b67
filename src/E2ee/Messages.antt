-- ===== src/E2ee/Messages.antt =====
-- The first message to a peer.
use genchat.Base.{ℕ, String, ◌==◌, ◌≡◌, refl, ap, true, false, not, Option, none, some, List, ◌∷◌}
use genchat.Codec.Hex.{bytes_to_hex}
use genchat.Mls.Platform.{Platform, Lawful, IsBytes}
use genchat.E2ee.Sessions.{
  Init, Session, Service, Texts, Wasm, extract_peer_id, get_canonical_context_id,
  derive_key_from_secret, get_or_restore_session, save_session, establish_session_with_retry,
  attempts, new_session,
}
use genchat.E2ee.{Envelope, parsed, opened, sealed, encrypt, encrypt_with, with_session, decrypt}
use genchat.E2ee.Laws.{context-symmetric, decrypt-sealed}

module _ (p : Platform) (texts : Texts) (lawful : Lawful p) (wasm : Wasm) where
  establish-first :
      (peer user conversation identity bundle secret : String) (init : Init)
      (answers : List (Option String)) (service : Service)
      → service.identity_bundle ≡ some identity
      → wasm.initiate identity bundle ≡ some (secret, init)
      → let s =
          new_session p texts wasm secret bundle init
            (get_canonical_context_id texts conversation user peer) in
        establish_session_with_retry p texts wasm peer user conversation
          (some bundle ∷ answers)
          service
        ≡ (save_session p texts peer user conversation s service, some s)
  unfolding establish_session_with_retry attempts
  establish-first peer user conversation identity bundle secret init answers service e i =
      simp (establish_session_with_retry, e, attempts, i)

  with_session-none :
      (conversation user peer : String) (answers : List (Option String)) (service made : Service)
      (s : Session)
      → (peer == user) ≡ false
      → establish_session_with_retry p texts wasm peer user conversation answers service
        ≡ (made, some s)
      → with_session p texts wasm conversation user peer answers (service, none) ≡ (made, some s)
  unfolding with_session
  with_session-none conversation user peer answers service made s d m = rw (with_session, d) m

  encrypt_with-some :
      (text conversation user peer : String) (sequence : ℕ) (iv : List ℕ) (made : Service)
      (s : Session)
      → encrypt_with p texts wasm text conversation user peer sequence false iv (made, some s) ≡ (
        made,
        some (
            sealed p texts wasm text conversation user peer sequence iv
              (some s)
              s.pending_init_message),
      )
  unfolding encrypt_with
  encrypt_with-some text conversation user peer sequence iv made s = refl

  encrypt-first :
      (text conversation user peer : String) (sequence : ℕ) (iv : List ℕ)
      (answers : List (Option String)) (service made : Service) (s : Session)
      → extract_peer_id texts conversation user ≡ peer
      → (peer == user) ≡ false
      → get_or_restore_session p texts peer user conversation service ≡ (service, none)
      → establish_session_with_retry p texts wasm peer user conversation answers service
        ≡ (made, some s)
      → encrypt p texts wasm text conversation user sequence false iv answers service ≡ (
        made,
        some (
            sealed p texts wasm text conversation user peer sequence iv
              (some s)
              s.pending_init_message),
      )
  unfolding encrypt
  encrypt-first text conversation user peer sequence iv answers service made s x d r m =
      rw (encrypt, x, r, with_session-none conversation user peer answers service made s d m)
        (encrypt_with-some text conversation user peer sequence iv made s)

  -- The first message to a peer: where the user has an identity and no session with the peer, who is
  -- another user, and the first request for pre-keys gives a bundle with which the handshake succeeds, the
  -- message is sent; and any peer with an identity that takes the init message of that handshake, to
  -- the same secret, whatever sessions it has, reads the text as it was, marked as encrypted. The
  -- platform is lawful, the decoder gives the text back from its bytes, and `sort` orders the two.
  pub decrypt-encrypt_first :
      (text conversation user peer identity bundle secret other : String) (init : Init)
      (sequence b : ℕ) (iv : List ℕ) (answers : List (Option String)) (service theirs : Service)
      → IsBytes (b ∷ iv)
      → p.decode (p.encode text) ≡ text
      → (user == "") ≡ false
      → (peer == "") ≡ false
      → (conversation == "") ≡ false
      → (user == peer) ≡ false
      → (peer == user) ≡ false
      → (bytes_to_hex (b ∷ iv) == "") ≡ false
      → texts.precedes peer user ≡ not (texts.precedes user peer)
      → extract_peer_id texts conversation user ≡ peer
      → get_or_restore_session p texts peer user conversation service ≡ (service, none)
      → service.identity_bundle ≡ some identity
      → wasm.initiate identity bundle ≡ some (secret, init)
      → theirs.identity_bundle ≡ some other
      → wasm.receive other init ≡ some secret
      → let s =
          new_session p texts wasm secret bundle init
            (get_canonical_context_id texts conversation user peer) in
        (p.btoa (p.encrypt s.key (b ∷ iv) (p.encode text)) == "") ≡ false
        → (e : Envelope) × ((encrypt p texts wasm text conversation user sequence false
              (b ∷ iv)
              (some bundle ∷ answers)
              service).1
            ≡ some e)
          × ((decrypt p texts wasm (parsed e) conversation peer theirs).1
              ≡ record { text = opened text; is_encrypted = true; is_insecure_fallback = false })
  decrypt-encrypt_first text conversation user peer identity bundle secret other init sequence b iv
        answers service theirs h e u q c d d' t o x r i w j k n =
      let context = get_canonical_context_id texts conversation user peer in
      let s = new_session p texts wasm secret bundle init context in
      (
        sealed p texts wasm text conversation user peer sequence (b ∷ iv) (some s) (some init),
        ap (λ y. y.1)
            (encrypt-first text conversation user peer sequence (b ∷ iv) (some bundle ∷ answers)
              service (save_session p texts peer user conversation s service) s x d' r
              (establish-first peer user conversation identity bundle secret init answers service i
                w)),
        decrypt-sealed p texts lawful wasm text conversation user peer other secret sequence b iv s
            init theirs h e u c d t n
            (ap (derive_key_from_secret p texts secret)
              (context-symmetric texts conversation user peer u q d o))
            j k,
      )
