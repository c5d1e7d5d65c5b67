-- ===== src/Mls/Message.antt =====
-- Application messages and media keys: `getEpochApplicationKey`, `encryptGroupMessage`,
-- `decryptGroupMessage` and `exportGroupMediaKey`.
pub mod Laws
use Prim.Native.String.{◌++◌, slice}
use mathlib.Core.Option
use genchat.Base.{
  ℕ, zero, String, ◌≡◌, Bool, true, not, Option, none, some, List, [], ◌∷◌, ◌==◌, if◌then◌else◌,
  lookup, insert,
}
use genchat.Codec.Hex.{bytes_to_hex, hex_to_bytes}
use genchat.Codec.Decimal.{decimal}
use genchat.Mls.Platform.{Platform}
use genchat.Mls.State.{GroupState, Manager, get_local_group_state, save_local_group_state}
use genchat.Mls.Commit.{Outcome, resolved, rejected}

pub record EncryptedGroupMessage : Type 0 where
  pub protocol : String
  pub group_id : String
  pub epoch : ℕ
  pub sender_id : String
  pub iv_hex : String
  pub ciphertext_base64 : String

-- What `decryptGroupMessage` returns: its argument as it came, or a plain text.
pub data Shown : Type 0 where
  as_received : Shown
  plain : String → Shown

unfoldable pub cache_key : GroupState → String
cache_key st = st.group_id ++ (":" ++ decimal st.epoch)

module _ (p : Platform) where
  -- The key that the state stands for.
  unfoldable pub app_key : GroupState → Option (List ℕ)
  app_key st =
      Option.map
        (λ secret.
          p.derive_key secret ("mls_app_salt_" ++ decimal st.epoch)
            ("mls_application_encryption_" ++ (st.group_id ++ ("_" ++ decimal st.epoch))))
        (hex_to_bytes st.epoch_secret_hex)

  abbrev remember : String → Manager → Option (List ℕ) → Manager × Option (List ℕ)
  remember key m none = (m, none)
  remember key m (some k) = (record m { app_key_cache = insert key k m.app_key_cache }, some k)

  -- `none` is a rejected promise.
  unfoldable pub get_epoch_application_key : GroupState → Manager → Manager × Option (List ℕ)
  get_epoch_application_key st m = elim (lookup (cache_key st) m.app_key_cache) [
    | some k ↦ (m, some k)
    | none ↦ remember (cache_key st) m (app_key st)
  ]

  -- The state that `encryptGroupMessage` begins with where none is known.
  unfoldable pub auto_state : String → String → List ℕ → ℕ → GroupState
  auto_state channel sender random now = record {
    group_id = channel;
    epoch = 0;
    my_leaf_index = 0;
    epoch_secret_hex = bytes_to_hex random;
    members = record { leaf_index = 0; user_id = sender; public_key_hex = "auto" } ∷ [];
    updated_at = now;
  }

  abbrev pub sealed :
      String
      → String
      → List ℕ
      → String
      → GroupState
      → Manager × Option (List ℕ)
      → Manager × Outcome EncryptedGroupMessage
  sealed channel sender iv text st (m, none) = (m, rejected)
  sealed channel sender iv text st (m, some k) = (
    m,
    resolved (record {
      protocol = "genchat-mls-v1";
      group_id = channel;
      epoch = st.epoch;
      sender_id = sender;
      iv_hex = bytes_to_hex iv;
      ciphertext_base64 = p.btoa (p.encrypt k iv (p.encode text));
    }),
  )

  abbrev pub encrypt_from :
      String
      → String
      → List ℕ
      → List ℕ
      → ℕ
      → String
      → Manager × Option GroupState
      → Manager × Outcome EncryptedGroupMessage
  encrypt_from channel sender random iv now text (m, some st) =
      sealed channel sender iv text st (get_epoch_application_key st m)
  encrypt_from channel sender random iv now text (m, none) =
      let st = auto_state channel sender random now in
      sealed channel sender iv text st (get_epoch_application_key st (save_local_group_state st m))

  -- `random` and `iv` are what `getRandomValues` gives.
  unfoldable pub encrypt_group_message :
      String
      → String
      → List ℕ
      → List ℕ
      → ℕ
      → String
      → Manager
      → Manager × Outcome EncryptedGroupMessage
  encrypt_group_message channel sender random iv now text m =
      encrypt_from channel sender random iv now text (get_local_group_state channel m)

  abbrev opened : Option (List ℕ) → Shown
  opened none = as_received
  opened (some bytes) = plain (p.decode bytes)

  infixl 5 ◌>>=◌
  abbrev ◌>>=◌ : {A B : Type 0} → Option A → (A → Option B) → Option B
  none >>= f = none
  some a >>= f = f a

  abbrev pub unsealed : EncryptedGroupMessage → Manager × Option (List ℕ) → Manager × Shown
  unsealed e (m, none) = (m, as_received)
  unsealed e (m, some k) = (
    m,
    opened (
        hex_to_bytes e.iv_hex >>= λ iv.
        p.atob e.ciphertext_base64 >>= λ bytes. p.decrypt k iv bytes),
  )

  abbrev pub decrypt_from : EncryptedGroupMessage → Manager × Option GroupState → Manager × Shown
  decrypt_from e (m, none) = (m, as_received)
  decrypt_from e (m, some st) = unsealed e (get_epoch_application_key st m)

  -- `none` is a payload that `JSON.parse` refuses; every exception is caught.
  unfoldable pub decrypt_group_message :
      String → Option EncryptedGroupMessage → Manager → Manager × Shown
  decrypt_group_message channel none m = (m, as_received)
  decrypt_group_message channel (some e) m =
      if not (e.protocol == "genchat-mls-v1")
      then (m, as_received)
      else decrypt_from e (get_local_group_state channel m)

  -- The key and salt for one participant, from the secret of the group's epoch.
  unfoldable pub media_key : String → String → GroupState → List ℕ → String × String
  media_key group participant st secret =
      let exporter =
        p.derive_bits secret ("mls_epoch_" ++ decimal st.epoch)
          ("sframe_media_exporter:" ++ group) in
      let key = bytes_to_hex (p.derive_bits exporter participant "sframe_participant_media_key") in
      (key, slice key 0 32)

  abbrev pub export_known :
      String → String → GroupState → Option (List ℕ) → Outcome (String × String)
  export_known group participant st none = rejected
  export_known group participant st (some secret) = resolved (media_key group participant st secret)

  abbrev pub export_from :
      String → String → Manager × Option GroupState → Manager × Outcome (String × String)
  export_from group participant (m, none) = (m, rejected)
  export_from group participant (m, some st) =
      (m, export_known group participant st (hex_to_bytes st.epoch_secret_hex))

  unfoldable pub export_group_media_key :
      String → String → Manager → Manager × Outcome (String × String)
  export_group_media_key group participant m =
      export_from group participant (get_local_group_state group m)
