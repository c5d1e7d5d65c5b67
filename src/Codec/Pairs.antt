-- ===== src/Codec/Pairs.antt =====
-- Hexadecimal text that is read by pairs: `parseInt(hex.substring(i, i + 2), 16)` at each even place, into a
-- `Uint8Array` of half the length.
use Prim.Native.Char.{code}
use mathlib.Core.Path.{ap₂}
use genchat.Base.{
  ℕ, ◌+◌, ◌-◌, ◌*◌, ◌/◌, ◌%◌, ◌<◌, String, ◌≡◌, refl, ◌∙◌, Bool, ◌&&◌, ◌||◌, none, some, List, [],
  ◌∷◌, leb, nat_eq, if◌then◌else◌, All, arith,
}
use genchat.Codec.Hex.{bytes_to_hex, codes, hex_digit, hex_value, hex_value-hex_digit}

-- The white space of `\s`, which `parseInt` skips.
abbrev pub is_space : ℕ → Bool
is_space c =
    (leb 9 c && leb c 13)
    || (nat_eq c 32
        || (nat_eq c 160
            || (nat_eq c 0x1680
                || ((leb 0x2000 c && leb c 0x200a)
                    || (nat_eq c 0x2028
                        || (nat_eq c 0x2029
                            || (nat_eq c 0x202f
                                || (nat_eq c 0x205f || (nat_eq c 0x3000 || nat_eq c 0xfeff)))))))))

-- A digit behind a sign or a blank.
after_mark : ℕ → ℕ → ℕ
after_mark a d = if nat_eq a 45 then (256 - d) % 256 else if nat_eq a 43 || is_space a then d else 0

-- What is no number becomes 0.
unfoldable pub pair_byte : ℕ → ℕ → ℕ
unfolding after_mark hex_value
pair_byte a b = elim (hex_value a) [
  | some x ↦ elim (hex_value b) [ none ↦ x | some y ↦ 16 * x + y ]
  | none ↦ elim (hex_value b) [ none ↦ 0 | some y ↦ after_mark a y ]
]

-- A last single character is left out.
unfoldable pub pair_bytes : List ℕ → List ℕ
unfolding pair_byte
pair_bytes [] = []
pair_bytes (a ∷ []) = []
pair_bytes (a ∷ (b ∷ cs)) = pair_byte a b ∷ pair_bytes cs

unfoldable pub hex_to_buffer : String → List ℕ
unfolding pair_bytes
hex_to_buffer hex = pair_bytes (codes hex)

pair_byte-digits :
    (x y a b : ℕ) → hex_value a ≡ some x → hex_value b ≡ some y → pair_byte a b ≡ 16 * x + y
unfolding pair_byte
pair_byte-digits x y a b p q = rw (p, q, pair_byte)

-- Bytes that were written as hexadecimal text are read back.
pub hex_to_buffer-bytes_to_hex :
    (bs : List ℕ) → All (λ b. b < 256) bs → hex_to_buffer (bytes_to_hex bs) ≡ bs
unfolding hex_to_buffer bytes_to_hex
hex_to_buffer-bytes_to_hex [] h = refl
hex_to_buffer-bytes_to_hex (b ∷ bs) (h, hs) =
    let high = hex_value-hex_digit (b / 16) (omega arith) in
    let low = hex_value-hex_digit (b % 16) (omega arith) in
    ap₂ ◌∷◌
      (pair_byte-digits (b / 16) (b % 16) (code (hex_digit (b / 16))) (code (hex_digit (b % 16)))
          high low
        ∙ omega arith)
      (hex_to_buffer-bytes_to_hex bs hs)
