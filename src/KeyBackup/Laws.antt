-- ===== src/KeyBackup/Laws.antt =====
-- A backup is restored with the passphrase that it was made with.
use genchat.Base.{
  ℕ, ◌<◌, ◌≡◌, ◌≢◌, refl, String, false, Option, some, List, [], ◌++◌, length, ltb, arith,
  All-append, take-append, drop-append, length-append, length_pos,
}
use genchat.Mls.Platform.{Platform, Lawful, IsBytes}
use genchat.KeyBackup.{bundle, create_encrypted_backup, restore_encrypted_backup, open_backup}

module _ (p : Platform) (pbkdf2 : List ℕ → List ℕ → ℕ → List ℕ) {B : Type 0}
    (stringify : B → String) (parse : String → Option B) (lawful : Lawful p) where
  -- A bundle of keys whose JSON text the decoder and the parser give back is restored from its backup with the same
  -- passphrase, where the vector has its twelve bytes and the encryption is not empty; the platform
  -- is lawful.
  pub restore-create :
      (salt iv : List ℕ) (keys : B) (passphrase : String)
      → IsBytes salt
      → IsBytes iv
      → length iv ≡ 12
      → p.encrypt (pbkdf2 (p.encode passphrase) salt 600000) iv (p.encode (stringify keys)) ≢ []
      → p.decode (p.encode (stringify keys)) ≡ stringify keys
      → parse (stringify keys) ≡ some keys
      → restore_encrypted_backup p pbkdf2 stringify parse
          (create_encrypted_backup p pbkdf2 stringify parse salt iv keys passphrase)
          passphrase
        ≡ bundle keys
  unfolding restore_encrypted_backup create_encrypted_backup
  restore-create salt iv keys passphrase bs bi l n d q =
      let key = pbkdf2 (p.encode passphrase) salt 600000 in
      let c = p.encrypt key iv (p.encode (stringify keys)) in
      let long : ltb (length (iv ++ c)) 13 ≡ false =
        ground (arith, length-append iv c, length_pos c n) in
      rw
        (
          lawful.atob-btoa salt bs,
          lawful.atob-btoa (iv ++ c) (
              All-append (λ b. b < 256) iv c bi
                (lawful.encrypt_bytes key iv (p.encode (stringify keys)))),
          open_backup,
          long,
          take-append 12 iv c l,
          drop-append 12 iv c l,
          lawful.decrypt-encrypt key iv (p.encode (stringify keys)),
          d,
          q,
        )
        refl
