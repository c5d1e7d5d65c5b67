-- ===== src/KeyStorage.antt =====
-- packages/client-crypto/src/storage.ts: `SecureKeyStorage`, which keeps identity keys and sessions encrypted under
-- a master key. Web Crypto is a parameter, with the base64 and hexadecimal texts of the browser; a
-- value is its JSON text. Calls run one after the other.
pub mod Refine
use Prim.Native.String.{◌++◌}
use genchat.Base.{
  ℕ, String, Bool, true, false, Option, none, some, List, [], ◌∷◌, lookup, insert, if◌then◌else◌,
}
use genchat.Codec.Hex.{bytes_to_hex}
use genchat.Codec.Pairs.{hex_to_buffer}
use genchat.Mls.Platform.{Platform}

pub record Encrypted : Type 0 where
  pub ciphertext : String
  pub iv : String

pub record SecureKeyStorage : Type 0 where
  pub master_key : Option (List ℕ)
  pub in_memory_fallback : List (String × Encrypted)

-- What a load gives: null, a text, or an exception.
pub data Loaded : Type 0 where
  null threw : Loaded
  text : String → Loaded

abbrev pub new_storage : SecureKeyStorage
new_storage = record { master_key = none; in_memory_fallback = [] }

abbrev pub identity_store : String
identity_store = "identity_keys"

unfoldable pub session_key : String → String
session_key conversation = "ratchet_sessions:" ++ conversation

-- The key that is there, or the one that is generated.
abbrev pub key_or : List ℕ → Option (List ℕ) → List ℕ
key_or generated none = generated
key_or generated (some key) = key

-- `getMasterKey`
unfoldable pub get_master_key : List ℕ → SecureKeyStorage → SecureKeyStorage × List ℕ
get_master_key generated s =
    let key = key_or generated s.master_key in (record s { master_key = some key }, key)

module _ (p : Platform) where
  unfoldable pub encrypt_at_rest : List ℕ → List ℕ → String → Encrypted
  encrypt_at_rest key iv value = record {
    ciphertext = p.btoa (p.encrypt key iv (p.encode value));
    iv = bytes_to_hex iv;
  }

  abbrev plain_of : Option (List ℕ) → Loaded
  plain_of none = threw
  plain_of (some plain) = text (p.decode plain)

  abbrev opened : List ℕ → List ℕ → Option (List ℕ) → Loaded
  opened key iv none = threw
  opened key iv (some bytes) = plain_of (p.decrypt key iv bytes)

  unfoldable pub decrypt_at_rest : List ℕ → Encrypted → Loaded
  decrypt_at_rest key e = opened key (hex_to_buffer e.iv) (p.atob e.ciphertext)

  -- `storeIdentityKey`, and `storeSession` under the key of its conversation.
  unfoldable pub store : List ℕ → List ℕ → String → String → SecureKeyStorage → SecureKeyStorage
  unfolding get_master_key
  store generated iv name value s =
      let (s', key) = get_master_key generated s in
      record s' {
        in_memory_fallback = insert name (encrypt_at_rest key iv value) s'.in_memory_fallback;
      }

  -- Where nothing is stored, no key is asked for.
  unfoldable pub load_found :
      Option Encrypted → List ℕ → SecureKeyStorage → SecureKeyStorage × Loaded
  unfolding get_master_key
  load_found none generated s = (s, null)
  load_found (some e) generated s =
      let (s', key) = get_master_key generated s in (s', decrypt_at_rest key e)

  -- `loadIdentityKey` and `loadSession`
  unfoldable pub load : List ℕ → String → SecureKeyStorage → SecureKeyStorage × Loaded
  load generated name s = load_found (lookup name s.in_memory_fallback) generated s

unfoldable pub wipe_all_keys : SecureKeyStorage → SecureKeyStorage
wipe_all_keys s = new_storage

-- The calls, with the key that would be generated and the random vector.
pub data Call : Type 0 where
  stores : List ℕ → List ℕ → String → String → Call
  loads : List ℕ → String → Call
  wipes : Call

module _ (p : Platform) where
  -- The storage after a call, and what it gives.
  unfoldable pub call_storage : Call → SecureKeyStorage → SecureKeyStorage × Loaded
  call_storage (stores generated iv name value) s = (store p generated iv name value s, null)
  call_storage (loads generated name) s = load p generated name s
  call_storage wipes s = (wipe_all_keys s, null)

  -- What the calls of a run give.
  unfoldable pub run_storage : List Call → SecureKeyStorage → List Loaded
  run_storage [] s = []
  run_storage (c ∷ cs) s = let (s', got) = call_storage c s in got ∷ run_storage cs s'
