-- ===== src/MediaCrypto.antt =====
-- packages/client-web/src/lib/media-crypto.ts: files that are encrypted under a key of their own. Web Crypto is a
-- parameter; a file is its bytes and its type, in lower case, as `Blob` keeps it.
use genchat.Base.{ℕ, ◌≡◌, refl, String, ◌==◌, Option, none, some, List, ◌∷◌, length, if◌then◌else◌}
use genchat.Codec.Hex.{bytes_to_hex, hex_to_bytes, hex_to_bytes-bytes_to_hex}
use genchat.Mls.Platform.{Platform, Lawful, IsBytes}

pub record Blob : Type 0 where
  pub bytes : List ℕ
  pub type : String

pub record EncryptedMediaPayload : Type 0 where
  pub ciphertext_blob : Blob
  pub encryption_key_hex : String
  pub iv_hex : String
  pub mime_type : String
  pub original_size : ℕ

abbrev or_octets : String → String
or_octets type = if type == "" then "application/octet-stream" else type

module _ (p : Platform) where
  -- With the key that is generated, which is exported, and the random vector.
  unfoldable pub encrypt_file : List ℕ → List ℕ → Blob → EncryptedMediaPayload
  encrypt_file key iv file = record {
    ciphertext_blob = record {
      bytes = p.encrypt key iv file.bytes;
      type = "application/octet-stream";
    };
    encryption_key_hex = bytes_to_hex key;
    iv_hex = bytes_to_hex iv;
    mime_type = or_octets file.type;
    original_size = length file.bytes;
  }

  abbrev blob_of : String → Option (List ℕ) → Option Blob
  blob_of mime_type none = none
  blob_of mime_type (some plain) = some (record { bytes = plain; type = mime_type })

  abbrev with_key : List ℕ → String → Option (List ℕ) → Option (List ℕ) → Option Blob
  with_key ciphertext mime_type (some key) (some iv) =
      blob_of mime_type (p.decrypt key iv ciphertext)
  with_key ciphertext mime_type key iv = none

  -- `none` is an exception. `decryptFile` gives the same blob by its address.
  unfoldable pub decrypt_to_blob : List ℕ → String → String → String → Option Blob
  decrypt_to_blob ciphertext key_hex iv_hex mime_type =
      with_key ciphertext mime_type (hex_to_bytes key_hex) (hex_to_bytes iv_hex)

  -- A file is decrypted with what its encryption gives, and has its type if it had one.
  pub decrypt_to_blob-encrypt_file :
      (lawful : Lawful p) (k i : ℕ) (key iv : List ℕ) (file : Blob)
      → IsBytes (k ∷ key)
      → IsBytes (i ∷ iv)
      → let e = encrypt_file (k ∷ key) (i ∷ iv) file in
        decrypt_to_blob e.ciphertext_blob.bytes e.encryption_key_hex e.iv_hex e.mime_type
        ≡ some (record { bytes = file.bytes; type = or_octets file.type })
  unfolding encrypt_file decrypt_to_blob
  decrypt_to_blob-encrypt_file lawful k i key iv file bk bi =
      rw
        (
          hex_to_bytes-bytes_to_hex k key bk,
          hex_to_bytes-bytes_to_hex i iv bi,
          lawful.decrypt-encrypt (k ∷ key) (i ∷ iv) file.bytes,
        )
        refl
