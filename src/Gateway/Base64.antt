-- ===== src/Gateway/Base64.antt =====
-- packages/client-web/src/lib/gateway-client.ts: texts as base64 of their UTF-8 bytes. `atob`, `btoa` and
-- the conversions `unescape(encodeURIComponent(_))` and `decodeURIComponent(escape(_))` are
-- parameters, which are `none` where they throw.
use genchat.Base.{String, ◌==◌, ◌≡◌, refl, Option, none, some, if◌then◌else◌, arith, eq_iff}

module _ (btoa to_bytes atob from_bytes : String → Option String) where
  -- `btoa(unescape(encodeURIComponent(s)))`, or `btoa(s)` if that throws
  unfoldable pub encode_payload : String → Option String
  encode_payload s = elim (to_bytes s) [
    | none ↦ btoa s
    | some bytes ↦ elim (btoa bytes) [ none ↦ btoa s | some b64 ↦ some b64 ]
  ]

  abbrev opened : String → String
  opened binary = elim (from_bytes binary) [ none ↦ binary | some s ↦ s ]

  unfoldable pub safe_base64_decode : String → String
  safe_base64_decode b64 =
      if b64 == "" then "" else elim (atob b64) [ none ↦ b64 | some binary ↦ opened binary ]

  -- Where a text has UTF-8 bytes, which have a base64 text, where atob undoes btoa on that text, and the
  -- conversion from bytes undoes the conversion to them on this one, and the empty text is the base64
  -- text of no bytes: what is encoded for the gateway is decoded to the same text.
  pub safe_base64_decode-encode_payload :
      (s bytes b64 : String)
      → to_bytes s ≡ some bytes
      → btoa bytes ≡ some b64
      → atob b64 ≡ some bytes
      → from_bytes bytes ≡ some s
      → atob "" ≡ some ""
      → from_bytes "" ≡ some ""
      → (encode_payload s ≡ some b64) × (safe_base64_decode b64 ≡ s)
  unfolding encode_payload safe_base64_decode
  safe_base64_decode-encode_payload s bytes b64 e b a f a0 f0 =
      (rw (e, b, encode_payload) refl, ground (arith, eq_iff b64 ""))
