-- ===== src/Mls/Platform.antt =====
-- What the group manager takes from the browser: Web Crypto, `btoa` and `atob`. Keys are raw bytes.
use genchat.Base.{ℕ, ◌<◌, String, ◌≡◌, ◌≢◌, Option, some, List, [], All}

-- The operations. `none` is a rejected promise or an exception.
pub record Platform : Type 0 where
  -- `deriveBits` by HKDF with SHA-256: 256 bits from a secret, a salt and an info text.
  pub derive_bits : List ℕ → String → String → List ℕ
  -- `deriveKey` by HKDF with SHA-256: an AES-GCM key from a secret, a salt and an info text.
  pub derive_key : List ℕ → String → String → List ℕ
  -- `encrypt` and `decrypt` by AES-GCM: key, initialisation vector, text.
  pub encrypt : List ℕ → List ℕ → List ℕ → List ℕ
  pub decrypt : List ℕ → List ℕ → List ℕ → Option (List ℕ)
  -- The raw public key of a PKCS #8 private key on P-256, and `deriveBits` by ECDH.
  pub public_of : List ℕ → List ℕ
  pub ecdh : List ℕ → List ℕ → Option (List ℕ)
  pub digest : List ℕ → List ℕ
  -- `TextEncoder` and `TextDecoder`.
  pub encode : String → List ℕ
  pub decode : List ℕ → String
  -- `btoa` of the string whose characters are these bytes, and `atob`.
  pub btoa : List ℕ → String
  pub atob : String → Option (List ℕ)

abbrev pub IsBytes : List ℕ → Type 0
IsBytes = All (λ b. b < 256)

-- The documented behaviour that the theorems name as a hypothesis.
pub record Lawful (p : Platform) : Type 0 where
  -- AES-GCM decrypts what it encrypted under the same key and vector.
  pub decrypt-encrypt : (k iv t : List ℕ) → p.decrypt k iv (p.encrypt k iv t) ≡ some t
  pub encrypt_bytes : (k iv t : List ℕ) → IsBytes (p.encrypt k iv t)
  -- The two sides of a Diffie-Hellman exchange agree.
  pub ecdh_agree : (a b : List ℕ) → p.ecdh a (p.public_of b) ≡ p.ecdh b (p.public_of a)
  -- Derived bits are 32 bytes, so at least one.
  pub derived-ne-nil : (s : List ℕ) (salt info : String) → p.derive_bits s salt info ≢ []
  pub derived_bytes : (s : List ℕ) (salt info : String) → IsBytes (p.derive_bits s salt info)
  pub atob-btoa : (bs : List ℕ) → IsBytes bs → p.atob (p.btoa bs) ≡ some bs
