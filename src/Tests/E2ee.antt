-- ===== src/Tests/E2ee.antt =====
-- The theorems on encrypted messages between two users, at the sample platform.
use genchat.Base.{String, ◌==◌, ◌≡◌, refl, true, false, none, some, [], ◌∷◌, arith, lookup}
use genchat.Codec.Hex.{bytes_to_hex, hex_to_bytes, hex_digit}
use genchat.WebStorage.{read}
use genchat.E2ee.Sessions.{
  Service, Texts, Wasm, extract_peer_id, get_or_restore_session, derive_key_from_secret,
  get_canonical_context_id,
}
use genchat.E2ee.{Envelope, parsed, opened, sealed, encrypt, decrypt, fallback_key}
use genchat.E2ee.Messages.{decrypt-encrypt_first}
use genchat.E2ee.Fallback.{decrypt-fallback}
use genchat.Tests.Sample.{sample, sample-Lawful}

abbrev plain : Texts
plain = record { has_colon = λ t. false; split_colons = λ t. t ∷ []; precedes = λ a b. a == "ann" }

-- A handshake whose secret is the text of the bundle.
abbrev handshake : Wasm
handshake = record {
  initiate = λ identity bundle.
      some (bundle, record { sender_identity_key_hex = identity; body = bundle });
  receive = λ identity init. some init.body;
  bundle_identity = λ bundle. bundle;
}

abbrev fresh_service : String → Service
fresh_service identity = record {
  identity_bundle = some identity;
  session_cache = [];
  peer_identity_keys = [];
  storage = record { items = []; available = true; accepts = λ _ _ _. true };
}

decrypt-encrypt_first_example :
    (e : Envelope) × ((encrypt sample plain handshake "h" "bob" "ann" 1 false
        (5 ∷ [])
        (some "07" ∷ [])
        (fresh_service "a1")).1
      ≡ some e)
    × ((decrypt sample plain handshake (parsed e) "bob" "bob" (fresh_service "b1")).1
        ≡ record { text = opened "h"; is_encrypted = true; is_insecure_fallback = false })
unfolding bytes_to_hex hex_digit hex_to_bytes lookup read get_or_restore_session extract_peer_id
    derive_key_from_secret get_canonical_context_id
decrypt-encrypt_first_example =
    decrypt-encrypt_first sample plain sample-Lawful handshake "h" "bob" "ann" "bob" "a1" "07" "07"
      "b1" (record { sender_identity_key_hex = "a1"; body = "07" }) 1 5 [] [] (fresh_service "a1")
      (fresh_service "b1") (omega arith, tt) refl refl refl refl refl refl refl refl refl refl refl
      refl refl refl refl

decrypt-fallback_example :
    (decrypt sample plain handshake
      (parsed (sealed sample plain handshake "h" "c1" "ann" "bob" 1 (5 ∷ []) none none))
      "c1"
      "bob"
      (fresh_service "b1")).1
    ≡ record { text = opened "h"; is_encrypted = false; is_insecure_fallback = true }
unfolding bytes_to_hex hex_digit fallback_key
decrypt-fallback_example =
    decrypt-fallback sample plain sample-Lawful handshake "h" "c1" "ann" "bob" "c1" 1 5 []
      (fresh_service "b1") (omega arith, tt) refl refl refl refl refl refl
