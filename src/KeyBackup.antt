-- ===== src/KeyBackup.antt =====
-- packages/client-web/src/lib/key-backup.ts: a bundle of keys that is encrypted under a passphrase, and its way to
-- the server and back. Web Crypto, the JSON text of a bundle and the server's answers are parameters.
pub mod Laws
use genchat.Base.{
  ℕ, String, Bool, true, false, Option, none, some, List, [], ◌∷◌, ◌++◌, length, take, drop, ltb,
  nat_eq, if◌then◌else◌,
}
use genchat.Mls.Platform.{Platform}

pub record BackupPayload : Type 0 where
  pub backup_ciphertext : String
  pub kdf_salt : String
  pub kdf_algorithm : String
  -- `kdf_params.iterations`, where the payload has it.
  pub iterations : Option ℕ
  pub bundle_version : ℕ

pub data BackupError : Type 0 where
  malformed too_short incorrect : BackupError

pub data Restored (B : Type 0) : Type 0 where
  bundle : B → Restored B
  failed : BackupError → Restored B

-- `payload.kdf_params?.iterations || 600000`
abbrev pub rounds : Option ℕ → ℕ
rounds none = 600000
rounds (some n) = if nat_eq n 0 then 600000 else n

-- PBKDF2 with SHA-256 takes a passphrase, a salt and a number of iterations. `parse` is `JSON.parse`.
module _ (p : Platform) (pbkdf2 : List ℕ → List ℕ → ℕ → List ℕ) {B : Type 0}
    (stringify : B → String) (parse : String → Option B) where
  unfoldable pub derive_key_from_passphrase : String → List ℕ → ℕ → List ℕ
  derive_key_from_passphrase passphrase salt iterations =
      pbkdf2 (p.encode passphrase) salt iterations

  -- With the random salt and vector.
  unfoldable pub create_encrypted_backup : List ℕ → List ℕ → B → String → BackupPayload
  unfolding derive_key_from_passphrase
  create_encrypted_backup salt iv keys passphrase =
      let key = derive_key_from_passphrase passphrase salt 600000 in
      record {
        backup_ciphertext = p.btoa (iv ++ p.encrypt key iv (p.encode (stringify keys)));
        kdf_salt = p.btoa salt;
        kdf_algorithm = "pbkdf2_aes256gcm";
        iterations = some 600000;
        bundle_version = 1;
      }

  abbrev pub parsed : Option B → Restored B
  parsed none = failed malformed
  parsed (some keys) = bundle keys

  abbrev pub decrypted : Option (List ℕ) → Restored B
  decrypted none = failed incorrect
  decrypted (some plain) = parsed (parse (p.decode plain))

  unfoldable pub open_backup : List ℕ → List ℕ → Restored B
  open_backup key combined =
      if ltb (length combined) 13
      then failed too_short
      else decrypted (p.decrypt key (take 12 combined) (drop 12 combined))

  abbrev with_texts : ℕ → String → Option (List ℕ) → Option (List ℕ) → Restored B
  with_texts iterations passphrase (some salt) (some combined) =
      open_backup (derive_key_from_passphrase passphrase salt iterations) combined
  with_texts iterations passphrase salt combined = failed malformed

  -- `malformed` is the exception of `atob` or `JSON.parse`.
  unfoldable pub restore_encrypted_backup : BackupPayload → String → Restored B
  unfolding derive_key_from_passphrase open_backup
  restore_encrypted_backup payload passphrase =
      with_texts (rounds payload.iterations) passphrase (p.atob payload.kdf_salt)
        (p.atob payload.backup_ciphertext)

-- What the service answers: an ok status with the payload that its body is, 404, another status, or nothing.
pub data Response : Type 0 where
  ok : BackupPayload → Response
  not_found refused unreachable : Response

-- Whether the promises of `uploadKeyBackup` and `deleteKeyBackup` are resolved.
unfoldable pub acknowledged : Response → Bool
acknowledged (ok b) = true
acknowledged r = false

-- What a fetch gives: a payload, null, or an exception.
pub data Fetched : Type 0 where
  payload : BackupPayload → Fetched
  null threw : Fetched

unfoldable pub fetch_key_backup : Response → Fetched
fetch_key_backup (ok b) = payload b
fetch_key_backup not_found = null
fetch_key_backup r = threw
