-- ===== src/DeviceLinking.antt =====
-- packages/client-web/src/lib/device-linking.ts: the pairing of a second device, from the session that the first
-- device initiates to the secrets that the second one decrypts. Web Crypto and JSON are parameters;
-- what the service answers is an argument.
pub mod Link
pub mod Laws
use genchat.Base.{
  ℕ, ◌+◌, ◌*◌, ◌%◌, String, Bool, true, false, Option, none, some, List, [], ◌∷◌, ◌++◌, ◌==◌,
  length, take, drop, ltb, if◌then◌else◌,
}
use genchat.DeviceLinking.Link.{qr_text}
use genchat.Codec.Hex.{bytes_to_hex}
use genchat.Codec.Decimal.{decimal}
use genchat.Codec.Pairs.{hex_to_buffer}
use genchat.Mls.Platform.{Platform}

pub record Random : Type 0 where
  pub b0 : ℕ
  pub b1 : ℕ
  pub b2 : ℕ
  pub b3 : ℕ

-- `((b0 << 24) | (b1 << 16) | (b2 << 8) | b3) >>> 0` of four bytes.
unfoldable pub random_number : Random → ℕ
random_number r = r.b0 * 16777216 + r.b1 * 65536 + r.b2 * 256 + r.b3

unfoldable pub confirmation_number : Random → ℕ
confirmation_number r = random_number r % 900000 + 100000

unfoldable pub confirmation_code : Random → String
confirmation_code r = decimal (confirmation_number r)

-- What `initiateDeviceLinking` sends to the service.
pub record InitiateRequest : Type 0 where
  pub ephemeral_pubkey : String
  pub auth_code_hash : String

pub record DeviceLinkingInitResult : Type 0 where
  pub session_id : String
  pub confirmation_code : String
  pub ephemeral_private_key : List ℕ
  pub ephemeral_public_key_hex : String
  pub qr_uri : String

-- What `approveDeviceLinking` sends.
pub record ApproveRequest : Type 0 where
  pub session_id : String
  pub new_device_id : String
  pub encrypted_bundle : String
  pub auth_code : String

-- An answer of the service: a body, a status that is not ok, or none.
pub data Response (T : Type 0) : Type 0 where
  ok : T → Response T
  refused unreachable : Response T

pub data Completed (B : Type 0) : Type 0 where
  secrets : B → Completed B
  failed : Completed B

-- `parse` is `JSON.parse`.
module _ (p : Platform) {B : Type 0} (stringify : B → String) (parse : String → Option B) where
  unfoldable pub initiate_request : List ℕ → Random → InitiateRequest
  initiate_request private_key r = record {
    ephemeral_pubkey = p.btoa (p.public_of private_key);
    auth_code_hash = p.btoa (p.digest (p.encode (confirmation_code r)));
  }

  -- With the session that the service answers.
  unfoldable pub initiate_device_linking :
      List ℕ → Random → Response String → Option DeviceLinkingInitResult
  initiate_device_linking private_key r (ok session) =
      let pub_hex = bytes_to_hex (p.public_of private_key) in
      some record {
        session_id = session;
        confirmation_code = confirmation_code r;
        ephemeral_private_key = private_key;
        ephemeral_public_key_hex = pub_hex;
        qr_uri = qr_text session pub_hex (confirmation_code r);
      }
  initiate_device_linking private_key r answer = none

  abbrev pub combined : List ℕ → List ℕ → String → List ℕ
  combined key iv text = iv ++ p.encrypt key iv (p.encode text)

  -- What is sent, where the public key of the second device is one.
  unfoldable pub approve_device_linking :
      String → List ℕ → String → B → String → String → List ℕ → Option ApproveRequest
  approve_device_linking session private_key public_hex transferred device code iv =
      elim (p.ecdh private_key (hex_to_buffer public_hex)) [
        | none ↦ none
        | some key ↦ some record {
          session_id = session;
          new_device_id = device;
          encrypted_bundle = p.btoa (combined key iv (stringify transferred));
          auth_code = code;
        }
      ]

  abbrev read : Option B → Completed B
  read none = failed
  read (some b) = secrets b

  abbrev decrypted : Option (List ℕ) → Completed B
  decrypted none = failed
  decrypted (some plain) = read (parse (p.decode plain))

  unfoldable pub open_bundle : List ℕ → List ℕ → Completed B
  open_bundle key bytes =
      if ltb (length bytes) 13
      then failed
      else decrypted (p.decrypt key (take 12 bytes) (drop 12 bytes))

  abbrev opened : Option (List ℕ) → Option (List ℕ) → Completed B
  opened (some key) (some bytes) = open_bundle key bytes
  opened key bytes = failed

  -- With the bundle that the service answers, where there is one.
  unfoldable pub complete_device_linking : List ℕ → String → Response (Option String) → Completed B
  unfolding open_bundle
  complete_device_linking private_key public_hex (ok (some bundle)) =
      if bundle == ""
      then failed
      else opened (p.ecdh private_key (hex_to_buffer public_hex)) (p.atob bundle)
  complete_device_linking private_key public_hex answer = failed
