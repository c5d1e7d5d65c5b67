-- ===== src/Codec/Hex.antt =====
-- Bytes as hexadecimal text: `Array.from(bytes).map(b => b.toString(16).padStart(2, '0')).join('')`, and
-- back by `hex.match(/.{1,2}/g)!.map(b => parseInt(b, 16))` into a `Uint8Array`.
use Prim.Native.Char.{Char, code}
use mathlib.Core.Path.{ap₂}
use genchat.Base.{
  ℕ, zero, suc, ◌+◌, ◌-◌, ◌*◌, ◌/◌, ◌%◌, ◌<◌, String, ◌≡◌, refl, ap, ◌∙◌, Bool, true, false, not,
  ◌&&◌, ◌||◌, Option, none, some, List, [], ◌∷◌, arith, leb, nat_eq, if◌then◌else◌, All,
}

abbrev pub codes : String → List ℕ
codes String.[] = []
codes (String.◌∷◌ c s) = code c ∷ codes s

-- The digit of a number below 16.
unfoldable pub hex_digit : ℕ → Char
hex_digit n =
    if nat_eq n 0
    then "0"
    else if nat_eq n 1
    then "1"
    else if nat_eq n 2
    then "2"
    else if nat_eq n 3
    then "3"
    else if nat_eq n 4
    then "4"
    else if nat_eq n 5
    then "5"
    else if nat_eq n 6
    then "6"
    else if nat_eq n 7
    then "7"
    else if nat_eq n 8
    then "8"
    else if nat_eq n 9
    then "9"
    else if nat_eq n 10
    then "a"
    else if nat_eq n 11
    then "b"
    else if nat_eq n 12
    then "c"
    else if nat_eq n 13
    then "d"
    else if nat_eq n 14
    then "e"
    else "f"

unfoldable pub bytes_to_hex : List ℕ → String
bytes_to_hex [] = String.[]
bytes_to_hex (b ∷ bs) =
    String.◌∷◌ (hex_digit (b / 16)) (String.◌∷◌ (hex_digit (b % 16)) (bytes_to_hex bs))

unfoldable pub hex_value : ℕ → Option ℕ
hex_value c =
    if leb 48 c && leb c 57
    then some (c - 48)
    else if leb 97 c && leb c 102
    then some (c - 87)
    else if leb 65 c && leb c 70
    then some (c - 55)
    else none

-- `.` of a regular expression does not match these.
is_line_end : ℕ → Bool
is_line_end c = nat_eq c 10 || nat_eq c 13 || nat_eq c 0x2028 || nat_eq c 0x2029

-- `match(/.{1,2}/g)`: pairs, and a last single one; a line end separates and is dropped.
chunks_from : Option ℕ → List ℕ → List (ℕ × Option ℕ)
chunks_from none [] = []
chunks_from (some a) [] = (a, none) ∷ []
chunks_from none (c ∷ cs) = if is_line_end c then chunks_from none cs else chunks_from (some c) cs
chunks_from (some a) (c ∷ cs) =
    if is_line_end c then (a, none) ∷ chunks_from none cs else (a, some c) ∷ chunks_from none cs

-- `parseInt(chunk, 16)` stored in a `Uint8Array`: what is no number becomes 0. A chunk that begins
-- with a blank or a sign is read by its second character.
signed_digit : ℕ → ℕ → ℕ
signed_digit a d =
    if nat_eq a 45
    then (256 - d) % 256
    else if nat_eq a 43 || nat_eq a 32 || nat_eq a 9
    then d
    else 0

chunk_byte : ℕ × Option ℕ → ℕ
chunk_byte (a, none) = elim (hex_value a) [ none ↦ 0 | some x ↦ x ]
chunk_byte (a, some b) = elim (hex_value a) [
  | some x ↦ elim (hex_value b) [ none ↦ x | some y ↦ 16 * x + y ]
  | none ↦ elim (hex_value b) [ none ↦ 0 | some y ↦ signed_digit a y ]
]

bytes_of : List (ℕ × Option ℕ) → List ℕ
bytes_of [] = []
bytes_of (c ∷ cs) = chunk_byte c ∷ bytes_of cs

-- `none`: the text has no chunk, `match` is null and `.map` throws.
nonempty : List ℕ → Option (List ℕ)
nonempty [] = none
nonempty (b ∷ bs) = some (b ∷ bs)

unfoldable pub hex_to_bytes : String → Option (List ℕ)
unfolding bytes_of chunk_byte signed_digit hex_value chunks_from is_line_end nonempty
hex_to_bytes s = nonempty (bytes_of (chunks_from none (codes s)))

holds_below : ℕ → (ℕ → Bool) → Bool
holds_below zero test = true
holds_below (suc bound) test = test bound && holds_below bound test

of_holds_below :
    (bound : ℕ) (test : ℕ → Bool) (a : ℕ)
    → holds_below bound test ≡ true
    → a < bound
    → test a ≡ true
unfolding holds_below
of_holds_below zero test a passed below = absurd (omega arith)
of_holds_below (suc bound) test a passed below = ground (arith, of_holds_below bound test a)

-- The digit of `n` reads back as `n`.
reads_back : ℕ → ℕ → Bool
reads_back n c = elim (hex_value c) [ none ↦ false | some v ↦ nat_eq v n && not (is_line_end c) ]

digit_table : holds_below 16 (λ n. reads_back n (code (hex_digit n))) ≡ true
unfolding holds_below hex_digit reads_back hex_value is_line_end
digit_table = refl

reads_back_parts :
    (n c : ℕ) → reads_back n c ≡ true → (hex_value c ≡ some n) × (is_line_end c ≡ false)
unfolding reads_back
reads_back_parts n c h = ground arith

hex_digit_lem :
    (n : ℕ)
    → n < 16
    → (hex_value (code (hex_digit n)) ≡ some n) × (is_line_end (code (hex_digit n)) ≡ false)
hex_digit_lem n h = reads_back_parts n (code (hex_digit n)) (of_holds_below 16 _ n digit_table h)

chunks_pair :
    (a b : ℕ) (cs : List ℕ)
    → is_line_end a ≡ false
    → is_line_end b ≡ false
    → chunks_from none (a ∷ b ∷ cs) ≡ (a, some b) ∷ chunks_from none cs
unfolding chunks_from
chunks_pair a b cs q s = rw (q, s)

chunk_byte_digits :
    (a b x y : ℕ)
    → hex_value a ≡ some x
    → hex_value b ≡ some y
    → chunk_byte (a, some b) ≡ 16 * x + y
unfolding chunk_byte
chunk_byte_digits a b x y p r = rw (p, r, chunk_byte)

pair_step :
    (a b x y : ℕ) (cs : List ℕ) {rest : List ℕ}
    → hex_value a ≡ some x
    → is_line_end a ≡ false
    → hex_value b ≡ some y
    → is_line_end b ≡ false
    → bytes_of (chunks_from none cs) ≡ rest
    → bytes_of (chunks_from none (a ∷ b ∷ cs)) ≡ (16 * x + y) ∷ rest
unfolding bytes_of
pair_step a b x y cs p q r s ih =
    rw (chunks_pair a b cs q s) (ap₂ ◌∷◌ (chunk_byte_digits a b x y p r) ih)

bytes_of-bytes_to_hex :
    (bs : List ℕ)
    → All (λ b. b < 256) bs
    → bytes_of (chunks_from none (codes (bytes_to_hex bs))) ≡ bs
unfolding bytes_of bytes_to_hex chunks_from
bytes_of-bytes_to_hex [] h = refl
bytes_of-bytes_to_hex (b ∷ bs) (h, hs) =
    let (p, q) = hex_digit_lem (b / 16) (omega arith) in
    let (r, s) = hex_digit_lem (b % 16) (omega arith) in
    let e : 16 * (b / 16) + b % 16 ≡ b = omega arith in
    pair_step _ _ (b / 16) (b % 16) _ p q r s (bytes_of-bytes_to_hex bs hs) ∙ ap (λ x. x ∷ bs) e

hex_to_bytes_of :
    (s : String) (b : ℕ) (bs : List ℕ)
    → bytes_of (chunks_from none (codes s)) ≡ b ∷ bs
    → hex_to_bytes s ≡ some (b ∷ bs)
unfolding hex_to_bytes
hex_to_bytes_of s b bs h = rw h

-- The hexadecimal text of any bytes, at least one, is read back as these bytes.
pub hex_to_bytes-bytes_to_hex :
    (b : ℕ) (bs : List ℕ)
    → All (λ x. x < 256) (b ∷ bs)
    → hex_to_bytes (bytes_to_hex (b ∷ bs)) ≡ some (b ∷ bs)
hex_to_bytes-bytes_to_hex b bs h = hex_to_bytes_of _ b bs (bytes_of-bytes_to_hex (b ∷ bs) h)

pub hex_value-hex_digit : (n : ℕ) → n < 16 → hex_value (code (hex_digit n)) ≡ some n
hex_value-hex_digit n h = (hex_digit_lem n h).0
