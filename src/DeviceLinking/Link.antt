-- ===== src/DeviceLinking/Link.antt =====
-- packages/client-web/src/lib/device-linking.ts: the text of the QR code.
use Prim.Native.String.{String, ◌++◌}

unfoldable pub qr_text : String → String → String → String
qr_text session pub_hex code =
    "genchat://link-device?session_id=" ++ (session ++ ("&pub=" ++ (pub_hex ++ ("&code=" ++ code))))
