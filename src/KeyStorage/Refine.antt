-- ===== src/KeyStorage/Refine.antt =====
-- The storage of keys is a map that forgets nothing.
use genchat.Base.{
  ℕ, ◌≡◌, refl, sym, ap, ◌∙◌, String, ◌==◌, Option, none, some, List, [], ◌∷◌, All, lookup, insert,
  lookup-insert, Bool-cases, inl, inr,
}
use mathlib.Core.Path.{ap₂}
use genchat.Codec.Pairs.{hex_to_buffer-bytes_to_hex}
use genchat.Mls.Platform.{Platform, Lawful, IsBytes}
use genchat.KeyStorage.{
  Encrypted, SecureKeyStorage, Loaded, null, text, new_storage, key_or, get_master_key,
  encrypt_at_rest, decrypt_at_rest, store, load_found, load, wipe_all_keys, Call, stores, loads,
  wipes, call_storage, run_storage,
}

-- The map of names to values.
abbrev Values : Type 0
Values = List (String × String)

abbrev loaded : Option String → Loaded
loaded none = null
loaded (some value) = text value

abbrev pub call_values : Call → Values → Values × Loaded
call_values (stores generated iv name value) m = (insert name value m, null)
call_values (loads generated name) m = (m, loaded (lookup name m))
call_values wipes m = ([], null)

abbrev pub run_values : List Call → Values → List Loaded
run_values [] m = []
run_values (c ∷ cs) m = let (m', got) = call_values c m in got ∷ run_values cs m'

module _ (p : Platform) where
  -- The vector of a call is bytes, and the decoder gives its value back from its bytes.
  abbrev pub IsFit : Call → Type 0
  IsFit (stores generated iv name value) = IsBytes iv × (p.decode (p.encode value) ≡ value)
  IsFit _ = Unit

  abbrev shown : List ℕ → Option Encrypted → Loaded
  shown key none = null
  shown key (some e) = decrypt_at_rest p key e

  -- Under the master key, or any that is generated where there is none, each name shows its value.
  abbrev Holds : SecureKeyStorage → Values → Type 0
  Holds s m =
      (generated : List ℕ) (name : String)
      → shown (key_or generated s.master_key) (lookup name s.in_memory_fallback)
        ≡ loaded (lookup name m)

  module _ (lawful : Lawful p) where
    decrypt-encrypt_at_rest :
        (key iv : List ℕ) (value : String)
        → IsBytes iv
        → p.decode (p.encode value) ≡ value
        → decrypt_at_rest p key (encrypt_at_rest p key iv value) ≡ text value
    unfolding decrypt_at_rest encrypt_at_rest
    decrypt-encrypt_at_rest key iv value b d =
        rw
          (
            hex_to_buffer-bytes_to_hex iv b,
            lawful.atob-btoa (p.encrypt key iv (p.encode value))
                (lawful.encrypt_bytes key iv (p.encode value)),
            lawful.decrypt-encrypt key iv (p.encode value),
            d,
          )
          refl

    store-Holds :
        (generated iv : List ℕ) (name value : String) (s : SecureKeyStorage) (m : Values)
        → IsFit (stores generated iv name value)
        → Holds s m
        → Holds (store p generated iv name value s) (insert name value m)
    unfolding store get_master_key
    store-Holds generated iv name value s m (b, d) h other key =
        rw
          (
            lookup-insert name key (encrypt_at_rest p (key_or generated s.master_key) iv value)
                s.in_memory_fallback,
            lookup-insert name key value m,
          )
          (elim (Bool-cases (name == key)) [
            | inl e ↦ rw e (decrypt-encrypt_at_rest (key_or generated s.master_key) iv value b d)
            | inr e ↦ rw e (h generated key)
          ])

    load_found-Holds :
        (o : Option Encrypted) (generated : List ℕ) (name : String) (s : SecureKeyStorage)
        (m : Values)
        → lookup name s.in_memory_fallback ≡ o
        → Holds s m
        → Holds (load_found p o generated s).0 m
          × ((load_found p o generated s).1 ≡ loaded (lookup name m))
    unfolding load_found get_master_key
    load_found-Holds none generated name s m e h =
        (h, ap (shown (key_or generated s.master_key)) (sym e) ∙ h generated name)
    load_found-Holds (some found) generated name s m e h = (
      λ other key. h generated key,
      ap (shown (key_or generated s.master_key)) (sym e) ∙ h generated name,
    )

    call-Holds :
        (c : Call) (s : SecureKeyStorage) (m : Values)
        → IsFit c
        → Holds s m
        → Holds (call_storage p c s).0 (call_values c m).0
          × ((call_storage p c s).1 ≡ (call_values c m).1)
    unfolding call_storage load wipe_all_keys lookup
    call-Holds (stores generated iv name value) s m f h =
        (store-Holds generated iv name value s m f h, refl)
    call-Holds (loads generated name) s m f h =
        load_found-Holds (lookup name s.in_memory_fallback) generated name s m refl h
    call-Holds wipes s m f h = (λ generated name. refl, refl)

    run-Holds :
        (cs : List Call) (s : SecureKeyStorage) (m : Values)
        → All IsFit cs
        → Holds s m
        → run_storage p cs s ≡ run_values cs m
    unfolding run_storage
    run-Holds [] s m f h = refl
    run-Holds (c ∷ cs) s m (f, fs) h =
        let (h', e) = call-Holds c s m f h in
        ap₂ ◌∷◌ e (run-Holds cs (call_storage p c s).0 (call_values c m).0 fs h')

    -- In a run of calls, one after the other, whose vectors are bytes and whose values the decoder gives back, every
    -- load gives what a map of names to values gives: the value that was stored last under the name, or null
    -- where there is none since the keys were wiped; whatever keys and vectors are generated. The
    -- platform is lawful.
    pub run_storage-refines :
        (cs : List Call) → All IsFit cs → run_storage p cs new_storage ≡ run_values cs []
    unfolding lookup
    run_storage-refines cs f = run-Holds cs new_storage [] f (λ generated name. refl)
