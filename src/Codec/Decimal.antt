-- ===== src/Codec/Decimal.antt =====
-- Numbers in template strings: the decimal text of a number.
use genchat.Base.{ℕ, zero, suc, ◌/◌, ◌%◌, String, ltb, if◌then◌else◌, ◌≡◌, refl}
use genchat.Codec.Hex.{hex_digit}

-- Digits before `acc`, on fuel.
decimal_from : ℕ → ℕ → String → String
decimal_from zero n acc = acc
decimal_from (suc fuel) n acc =
    let longer = String.◌∷◌ (hex_digit (n % 10)) acc in
    let rest = decimal_from fuel (n / 10) longer in if ltb n 10 then longer else rest

unfoldable pub decimal : ℕ → String
unfolding decimal_from
decimal n = decimal_from (suc n) n String.[]

decimal_test : decimal 9070 ≡ "9070"
unfolding decimal hex_digit
decimal_test = refl
