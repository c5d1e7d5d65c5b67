-- ===== src/DeviceLinking/Laws.antt =====
-- The secrets of the first device reach the second, and the confirmation code has six digits.
use genchat.Base.{
  ℕ, ◌≤◌, ◌<◌, ◌≡◌, ◌≢◌, refl, sym, ap, ◌∙◌, String, ◌==◌, false, Option, none, some, List, [],
  ◌++◌, length, ltb, arith, All-append, take-append, drop-append, length-append, length_pos,
}
use genchat.Codec.Hex.{bytes_to_hex}
use genchat.Codec.Pairs.{hex_to_buffer-bytes_to_hex}
use genchat.Mls.Platform.{Platform, Lawful, IsBytes}
use genchat.DeviceLinking.{
  Random, confirmation_number, DeviceLinkingInitResult, ApproveRequest, ok, secrets,
  initiate_device_linking, combined, approve_device_linking, open_bundle, complete_device_linking,
}

-- The confirmation code is the decimal text of a number of six digits.
pub confirmation_number_bounds :
    (r : Random) → (100000 ≤ confirmation_number r) × (confirmation_number r < 1000000)
unfolding confirmation_number
confirmation_number_bounds r = (omega arith, omega arith)

abbrev public_hex : Option DeviceLinkingInitResult → String
public_hex none = ""
public_hex (some r) = r.ephemeral_public_key_hex

abbrev private_key : Option DeviceLinkingInitResult → List ℕ
private_key none = []
private_key (some r) = r.ephemeral_private_key

abbrev bundle_of : Option ApproveRequest → String
bundle_of none = ""
bundle_of (some r) = r.encrypted_bundle

module _ (p : Platform) {B : Type 0} (stringify : B → String) (parse : String → Option B)
    (lawful : Lawful p) where
  open_bundle-combined :
      (key iv : List ℕ) (transferred : B)
      → length iv ≡ 12
      → p.encrypt key iv (p.encode (stringify transferred)) ≢ []
      → p.decode (p.encode (stringify transferred)) ≡ stringify transferred
      → parse (stringify transferred) ≡ some transferred
      → open_bundle p stringify parse key
          (combined p stringify parse key iv (stringify transferred))
        ≡ secrets transferred
  unfolding open_bundle
  open_bundle-combined key iv transferred l n d q =
      let c = p.encrypt key iv (p.encode (stringify transferred)) in
      let long : ltb (length (iv ++ c)) 13 ≡ false =
        ground (arith, length-append iv c, length_pos c n) in
      rw
        (
          long,
          take-append 12 iv c l,
          drop-append 12 iv c l,
          lawful.decrypt-encrypt key iv (p.encode (stringify transferred)),
          d,
          q,
        )
        refl

  approved :
      (session device code : String) (a b iv key : List ℕ) (transferred : B)
      → IsBytes (p.public_of b)
      → p.ecdh a (p.public_of b) ≡ some key
      → bundle_of (
          approve_device_linking p stringify parse session a
            (bytes_to_hex (p.public_of b))
            transferred
            device
            code
            iv)
        ≡ p.btoa (combined p stringify parse key iv (stringify transferred))
  unfolding approve_device_linking
  approved session device code a b iv key transferred bb k =
      rw (approve_device_linking, hex_to_buffer-bytes_to_hex (p.public_of b) bb, k) refl

  -- What the second device decrypts, with the public key that it scanned and the bundle that the first device sent
  -- under the public key of the second, is what the first device transferred; its JSON text is given
  -- back by the decoder and the parser, the agreement succeeds, the vector has its twelve bytes, the
  -- encryption and its base64 text are not empty, and the platform is lawful.
  pub complete-approve :
      (session device : String) (r : Random) (a b iv key : List ℕ) (transferred : B)
      (scanned : DeviceLinkingInitResult) (sent : ApproveRequest)
      → IsBytes (p.public_of a)
      → IsBytes (p.public_of b)
      → IsBytes iv
      → length iv ≡ 12
      → p.ecdh a (p.public_of b) ≡ some key
      → p.encrypt key iv (p.encode (stringify transferred)) ≢ []
      → p.decode (p.encode (stringify transferred)) ≡ stringify transferred
      → parse (stringify transferred) ≡ some transferred
      → (sent.encrypted_bundle == "") ≡ false
      → initiate_device_linking p stringify parse a r (ok session) ≡ some scanned
      → approve_device_linking p stringify parse scanned.session_id scanned.ephemeral_private_key
          (bytes_to_hex (p.public_of b))
          transferred
          device
          scanned.confirmation_code
          iv
        ≡ some sent
      → complete_device_linking p stringify parse b scanned.ephemeral_public_key_hex
          (ok (some sent.encrypted_bundle))
        ≡ secrets transferred
  unfolding complete_device_linking initiate_device_linking
  complete-approve session device r a b iv key transferred scanned sent ba bb bi l k n d q e f g =
      let c = p.encrypt key iv (p.encode (stringify transferred)) in
      let hex : bytes_to_hex (p.public_of a) ≡ scanned.ephemeral_public_key_hex = ap public_hex f in
      let own : a ≡ scanned.ephemeral_private_key = ap private_key f in
      let text : sent.encrypted_bundle ≡ p.btoa (iv ++ c) =
        ap bundle_of (sym g)
        ∙ ap
            (λ x. bundle_of (
              approve_device_linking p stringify parse scanned.session_id x
                (bytes_to_hex (p.public_of b)) transferred device scanned.confirmation_code iv))
            (sym own)
        ∙ approved scanned.session_id device scanned.confirmation_code a b iv key transferred bb
            k in
      let agreed : p.ecdh b (p.public_of a) ≡ some key = lawful.ecdh_agree b a ∙ k in
      let back : p.atob sent.encrypted_bundle ≡ some (iv ++ c) =
        ap p.atob text
        ∙ lawful.atob-btoa (iv ++ c) (
            All-append (λ x. x < 256) iv c bi
              (lawful.encrypt_bytes key iv (p.encode (stringify transferred)))) in
      rw (e, ← hex, hex_to_buffer-bytes_to_hex (p.public_of a) ba, agreed, back)
        (open_bundle-combined key iv transferred l n d q)
