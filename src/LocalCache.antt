-- ===== src/LocalCache.antt =====
-- packages/client-web/src/lib/local-cache.ts: `LocalEncryptedCache`, which encrypts the texts of messages before
-- LocalStorageDb stores them. Web Crypto, `btoa`, `atob` and `split(':')` are parameters; a key is the
-- bytes it stands for.
pub mod Laws
use Prim.Native.String.{◌++◌}
use text.Mathlib.Text.{starts_with}
use genchat.Base.{
  ℕ, ltb, String, ◌==◌, Bool, true, false, Option, none, some, List, [], ◌∷◌, if◌then◌else◌, map,
}
use genchat.WebStorage.{WebStorage, threw, absent, found, read, try_write}
use genchat.Mls.Platform.{Platform}
use genchat.LocalDb.Message.{StoredMessage}
use genchat.LocalDb.Store.{LocalDb, Tx, Settled, get_messages_by_channel}
use genchat.LocalDb.Store as Store

-- The key in memory, and the key in the IndexedDB of keys.
pub record Cache : Type 0 where
  pub crypto_key : Option (List ℕ)
  pub stored_key : Option (List ℕ)

-- How `persistCryptoKey` ends: with the key stored, without it (there is no database of keys, or it does not
-- open), or with a rejection, as the request fails.
pub data Persisting : Type 0 where
  persisted skipped refused : Persisting

-- `getStoredCryptoKey` gives null where the database cannot be read.
abbrev stored : Bool → Cache → Option (List ℕ)
stored readable c = if readable then c.stored_key else none

abbrev generated : List ℕ → Persisting → Cache → Cache × Option (List ℕ)
generated key persisted c = (record { crypto_key = some key; stored_key = some key }, some key)
generated key skipped c = (record c { crypto_key = some key }, some key)
generated key refused c = (c, none)

-- With whether the database of keys can be read, the key that is generated if none is there, and how it is
-- persisted; `none` is an exception.
unfoldable pub get_or_create_key : Bool → List ℕ → Persisting → Cache → Cache × Option (List ℕ)
get_or_create_key readable key ends c = elim c.crypto_key [
  | some k ↦ (c, some k)
  | none ↦ elim (stored readable c) [
    | some k ↦ (record c { crypto_key = some k }, some k)
    | none ↦ generated key ends c
  ]
]

abbrev pub envelope : String → String → String
envelope iv ciphertext = "ENC_GCM:" ++ (iv ++ (":" ++ ciphertext))

module _ (p : Platform) (split_colons : String → List String) where
  -- `encryptText` with a key and a vector, as the text that is stored.
  unfoldable pub encrypt_text : List ℕ → List ℕ → String → String
  encrypt_text key iv plaintext =
      envelope (p.btoa iv) (p.btoa (p.encrypt key iv (p.encode plaintext)))

  abbrev opened : List ℕ → List ℕ → Option (List ℕ) → Option String
  opened key iv none = none
  opened key iv (some bytes) = elim (p.decrypt key iv bytes) [
    | none ↦ none
    | some plain ↦ some (p.decode plain)
  ]

  -- `decryptText`: where there is no key, or anything fails, the ciphertext itself.
  unfoldable pub decrypt_text : Option (List ℕ) → String → String → String
  decrypt_text none ciphertext iv = ciphertext
  decrypt_text (some key) ciphertext iv = elim (p.atob iv) [
    | none ↦ ciphertext
    | some vector ↦ elim (opened key vector (p.atob ciphertext)) [
      | none ↦ ciphertext
      | some plain ↦ plain
    ]
  ]

  -- The text that is stored for a text: without a key, the text itself.
  unfoldable pub stored_text : Option (List ℕ) → List ℕ → Option String → Option String
  stored_text key iv none = none
  stored_text none iv (some text) = some text
  stored_text (some key) iv (some text) =
      if text == "" then some text else some (encrypt_text key iv text)

  unfoldable pub loaded_text : Option (List ℕ) → Option String → Option String
  loaded_text key none = none
  loaded_text key (some text) =
      if starts_with text "ENC_GCM:"
      then elim (split_colons text) [
        | head ∷ iv ∷ ciphertext ∷ [] ↦ some (decrypt_text key ciphertext iv)
        | _ ↦ some text
      ]
      else some text

  -- `saveMessage`, with the key that `getOrCreateKey` gives and a random vector
  unfoldable pub save_message :
      ℕ → StoredMessage → Option (List ℕ) → List ℕ → Tx → LocalDb → LocalDb × Settled
  save_message now m key iv tx d =
      Store.save_message now (record m { text = stored_text key iv m.text }) tx d

  abbrev pub loaded : Option (List ℕ) → StoredMessage → StoredMessage
  loaded key m = record m { text = loaded_text key m.text }

  unfoldable pub load_messages : ℕ → String → Option (List ℕ) → Tx → LocalDb → List StoredMessage
  load_messages now channel key tx d = map (loaded key) (get_messages_by_channel now channel tx d)

-- The last sequence number read in a channel. The texts under these keys are numerals.
abbrev seq_key : String → String
seq_key channel = "genchat_last_seq_" ++ channel

unfoldable pub get_last_read_seq : String → WebStorage ℕ → ℕ
get_last_read_seq channel s = elim (read (seq_key channel) s) [ found n ↦ n | _ ↦ 0 ]

unfoldable pub set_last_read_seq : String → ℕ → WebStorage ℕ → WebStorage ℕ
unfolding get_last_read_seq
set_last_read_seq channel seq s =
    if ltb (get_last_read_seq channel s) seq then try_write (seq_key channel) seq s else s
