-- ===== src/E2ee/Fallback.antt =====
-- Messages under the fallback key, which is made of public values.
use genchat.Base.{ℕ, String, ◌==◌, ◌≡◌, refl, ap, ◌∙◌, true, false, Option, none, some, List, ◌∷◌}
use genchat.Codec.Hex.{bytes_to_hex, hex_to_bytes-bytes_to_hex}
use genchat.Mls.Platform.{Platform, Lawful, IsBytes}
use genchat.E2ee.Sessions.{Session, Service, Texts, Wasm, get_or_restore_session}
use genchat.E2ee.{
  Envelope, parsed, opened, sealed, decrypt, decrypt_restored, decrypt_received, receive_init,
  open_with, unsealed, fallback_key, is_fallback_envelope,
}
use genchat.E2ee.Laws.{decrypt_envelope-named, decrypt_from-peer, open_with-clear}

module _ (p : Platform) (texts : Texts) (lawful : Lawful p) (wasm : Wasm) where
  unsealed-fallback :
      (text conversation user peer : String) (sequence b : ℕ) (iv : List ℕ)
      → IsBytes (b ∷ iv)
      → p.decode (p.encode text) ≡ text
      → unsealed p texts wasm
          (sealed p texts wasm text conversation user peer sequence (b ∷ iv) none none)
          (fallback_key p texts wasm conversation user)
        ≡ some text
  unfolding sealed
  unsealed-fallback text conversation user peer sequence b iv h e =
      let key = fallback_key p texts wasm conversation user in
      rw
        (
          unsealed,
          sealed,
          hex_to_bytes-bytes_to_hex b iv h,
          lawful.atob-btoa (p.encrypt key (b ∷ iv) (p.encode text))
              (lawful.encrypt_bytes key (b ∷ iv) (p.encode text)),
          lawful.decrypt-encrypt key (b ∷ iv) (p.encode text),
          e,
        )
        refl

  decrypt_restored-fallback :
      (e : Envelope) (sender peer user conversation : String) (restored : Service × Option Session)
      → e.init_message ≡ none
      → is_fallback_envelope p texts wasm e ≡ true
      → decrypt_restored p texts wasm e sender peer user conversation true restored
        ≡ open_with p texts wasm e peer user conversation true true
            (fallback_key p texts wasm conversation sender)
            restored.0
  unfolding decrypt_restored decrypt_received receive_init
  decrypt_restored-fallback e sender peer user conversation restored i f =
      rw (decrypt_restored, i, decrypt_received, f) refl

  -- A fallback message, which whoever knows the names of a conversation and of a sender can make, is opened
  -- by every other user, whatever sessions that user has with the sender; it is marked as an insecure
  -- fallback and not as encrypted. The platform is lawful and the decoder gives the text back.
  pub decrypt-fallback :
      (text conversation sender user given : String) (sequence b : ℕ) (iv : List ℕ)
      (service : Service)
      → IsBytes (b ∷ iv)
      → p.decode (p.encode text) ≡ text
      → (conversation == "") ≡ false
      → (sender == "") ≡ false
      → (sender == user) ≡ false
      → (bytes_to_hex (b ∷ iv) == "") ≡ false
      → (p.btoa (p.encrypt (fallback_key p texts wasm conversation sender) (b ∷ iv) (p.encode text))
          == "")
        ≡ false
      → (decrypt p texts wasm
          (parsed (sealed p texts wasm text conversation sender user sequence (b ∷ iv) none none))
          given
          user
          service).1
        ≡ record { text = opened text; is_encrypted = false; is_insecure_fallback = true }
  unfolding decrypt sealed
  decrypt-fallback text conversation sender user given sequence b iv service h e c s d i t =
      let e' = sealed p texts wasm text conversation sender user sequence (b ∷ iv) none none in
      rw (decrypt, i, t)
        (ap (λ x. x.1)
          (decrypt_envelope-named p texts lawful wasm e' given user service c s d
            ∙ decrypt_from-peer p texts lawful wasm e' sender sender user conversation service d
            ∙ decrypt_restored-fallback e' sender sender user conversation
                (get_or_restore_session p texts sender user conversation service) refl refl
            ∙ open_with-clear p texts lawful wasm e' sender user conversation text true true
                (fallback_key p texts wasm conversation sender)
                (get_or_restore_session p texts sender user conversation service).0
                (unsealed-fallback text conversation sender user sequence b iv h e)))
