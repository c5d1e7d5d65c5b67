-- ===== src/Safety/Number.antt =====
-- `computeSafetyNumber`.
use Prim.Native.String.{◌++◌, len}
use genchat.Base.{
  ℕ, zero, suc, ◌+◌, ◌-◌, ◌*◌, ◌%◌, ◌^◌, ◌<◌, String, ◌≡◌, refl, ap, Bool, true, false, List, [],
  ◌∷◌, arith, length, drop, map, if◌then◌else◌, All,
}
use genchat.Codec.Hex.{bytes_to_hex}
use genchat.Codec.Decimal.{decimal}

-- An identity key: bytes, or their hexadecimal text.
pub data Key : Type 0 where
  bytes : List ℕ → Key
  text : String → Key

-- `typeof key === 'string' ? key : bytesToHex(key)`
unfoldable pub key_text : Key → String
key_text (bytes bs) = bytes_to_hex bs
key_text (text s) = s

pub record Party : Type 0 where
  pub user_id : String
  pub key : String

-- The two forms of the call: both users with their keys, or two users alone.
pub data Arguments : Type 0 where
  with_keys : String → Key → String → Key → Arguments
  users_only : String → Key → Arguments

unfoldable pub parties : Arguments → Party × Party
unfolding key_text
parties (with_keys user_a key_a user_b key_b) = (
  record { user_id = user_a; key = key_text key_a },
  record { user_id = user_b; key = key_text key_b },
)
parties (users_only user_a (text user_b)) =
    (record { user_id = user_a; key = "" }, record { user_id = user_b; key = "" })
parties (users_only user_a (bytes bs)) =
    (record { user_id = user_a; key = "" }, record { user_id = ""; key = "" })

abbrev pub party_text : Party → String
party_text p = p.user_id ++ (":" ++ p.key)

-- `localeCompare` gives at most 0, SHA-512, and the encoding of a text as UTF-8.
pub record Environment : Type 0 where
  pub precedes : String → String → Bool
  pub digest : List ℕ → List ℕ
  pub encode : String → List ℕ

-- `hashBytes[i] || 0`
abbrev pub byte_at : ℕ → List ℕ → ℕ
byte_at i bs = elim (drop i bs) [ [] ↦ 0 | b ∷ _ ↦ b ]

-- `(((b0 << 24) | (b1 << 16) | (b2 << 8) | b3) >>> 0) % 100000`, of bytes below 256.
unfoldable pub block : List ℕ → ℕ → ℕ
block bs i =
    ((byte_at (i * 4) bs * 2 ^ 24
        + byte_at (i * 4 + 1) bs * 2 ^ 16
        + byte_at (i * 4 + 2) bs * 2 ^ 8
        + byte_at (i * 4 + 3) bs)
      % 2 ^ 32)
    % 100000

abbrev pub blocks_from : List ℕ → ℕ → ℕ → List ℕ
blocks_from bs i zero = []
blocks_from bs i (suc n) = block bs i ∷ blocks_from bs (i + 1) n

abbrev zeros : ℕ → String → String
zeros zero s = s
zeros (suc n) s = "0" ++ zeros n s

-- `val.toString().padStart(5, '0')`
unfoldable pub padded : ℕ → String
padded n = zeros (5 - len (decimal n)) (decimal n)

-- `blocks.join(' ')`
abbrev pub joined_blocks : List String → String
joined_blocks [] = ""
joined_blocks (b ∷ []) = b
joined_blocks (b ∷ c ∷ bs) = b ++ (" " ++ joined_blocks (c ∷ bs))

abbrev pub times : ℕ → (List ℕ → List ℕ) → List ℕ → List ℕ
times zero f a = a
times (suc n) f a = times n f (f a)

module _ (env : Environment) where
  -- What is hashed: the two parties, in the order of their texts.
  unfoldable pub payload : Party → Party → String
  payload a b =
      if env.precedes (party_text a) (party_text b)
      then "genchat-safety-v1:" ++ (party_text a ++ (":" ++ party_text b))
      else "genchat-safety-v1:" ++ (party_text b ++ (":" ++ party_text a))

  -- One hash, and five more.
  unfoldable pub number_blocks : Party → Party → List ℕ
  unfolding payload
  number_blocks a b = blocks_from (times 5 env.digest (env.digest (env.encode (payload a b)))) 0 12

  unfoldable pub compute_safety_number : Arguments → String
  unfolding number_blocks parties padded
  compute_safety_number args =
      joined_blocks (map padded (number_blocks (parties args).0 (parties args).1))

  payload-swap :
      (a b : Party)
      → (env.precedes (party_text a) (party_text b) ≡ false
          → env.precedes (party_text b) (party_text a) ≡ true)
      → (env.precedes (party_text a) (party_text b) ≡ true
          → env.precedes (party_text b) (party_text a) ≡ true
          → party_text a ≡ party_text b)
      → payload a b ≡ payload b a
  unfolding payload
  payload-swap a b total antisym = ground (arith, total, antisym)

  -- Where the comparison of the two parties' texts, a user and a key each, holds one way or the other, and
  -- both ways only if they are equal, the two sides compute the same safety number.
  pub compute_safety_number_symmetric :
      (user_a user_b : String) (key_a key_b : Key)
      → let text_a = user_a ++ (":" ++ key_text key_a) in
        let text_b = user_b ++ (":" ++ key_text key_b) in
        (env.precedes text_a text_b ≡ false → env.precedes text_b text_a ≡ true)
        → (env.precedes text_a text_b ≡ true → env.precedes text_b text_a ≡ true → text_a ≡ text_b)
        → compute_safety_number (with_keys user_a key_a user_b key_b)
          ≡ compute_safety_number (with_keys user_b key_b user_a key_a)
  unfolding compute_safety_number number_blocks parties
  compute_safety_number_symmetric user_a user_b key_a key_b total antisym =
      ap
        (λ s.
          joined_blocks
            (map padded (blocks_from (times 5 env.digest (env.digest (env.encode s))) 0 12)))
        (payload-swap (record { user_id = user_a; key = key_text key_a })
          (record { user_id = user_b; key = key_text key_b }) total antisym)

  blocks_from-bounds :
      (bs : List ℕ) (i n : ℕ)
      → (length (blocks_from bs i n) ≡ n) × All (λ b. b < 100000) (blocks_from bs i n)
  unfolding block
  blocks_from-bounds bs i zero = (refl, tt)
  blocks_from-bounds bs i (suc n) =
      let r = blocks_from-bounds bs (i + 1) n in (ap suc r.0, (omega arith, r.1))

  -- A safety number has twelve blocks, each below 100000.
  pub number_blocks_bounds :
      (a b : Party) → (length (number_blocks a b) ≡ 12) × All (λ n. n < 100000) (number_blocks a b)
  unfolding number_blocks
  number_blocks_bounds a b = blocks_from-bounds _ 0 12
