-- ===== src/Mls/Create.antt =====
-- `generateKeyPackage` and `createGroup`. The answers of the server, and the keys and vectors that are
-- drawn at random, are arguments.
pub mod Laws
use Prim.Native.String.{◌++◌, slice}
use genchat.Base.{
  ℕ, ◌+◌, String, Bool, true, not, ◌&&◌, Option, none, some, List, [], ◌∷◌, ◌==◌, if◌then◌else◌,
  insert, map,
}
use genchat.WebStorage.{WebStorage, try_write}
use genchat.Codec.Hex.{bytes_to_hex, hex_to_bytes}
use genchat.Mls.Platform.{Platform}
use genchat.Mls.State.{Member, GroupState, Manager, save_local_group_state}
use genchat.Mls.Commit.{CommitEnvelope, add, WelcomeEnvelope, Outcome, resolved, rejected, truthy}

pub record KeyPackage : Type 0 where
  pub user_id : String
  pub device_id : String
  pub public_key_hex : String
  pub signature_hex : String
  pub timestamp : ℕ

-- What is drawn for one Welcome: the private key of the encapsulation, its vector, and the vector of the
-- fallback.
pub record Draw : Type 0 where
  pub ephemeral : List ℕ
  pub iv : List ℕ
  pub fallback_iv : List ℕ

-- The answer of CreateChannel: no answer, a bad status, or the channel's id (empty where it is missing).
pub data CreateAnswer : Type 0 where
  threw refused : CreateAnswer
  channel : String → CreateAnswer

pub record CreateRequest : Type 0 where
  pub welcomes : List (String × WelcomeEnvelope)
  pub initial_commit : CommitEnvelope

abbrev pub with_package :
    String → Option KeyPackage → List (String × KeyPackage) → List (String × KeyPackage)
with_package uid none found = found
with_package uid (some pkg) found = insert uid pkg found

-- The packages that were found, in the order in which their users were first named.
unfoldable pub member_packages :
    (String → Option KeyPackage)
    → String
    → List String
    → List (String × KeyPackage)
    → List (String × KeyPackage)
member_packages fetched creator [] found = found
member_packages fetched creator (uid ∷ uids) found =
    member_packages fetched creator uids
      (if uid == creator then found else with_package uid (fetched uid) found)

abbrev pub leaves_from : ℕ → List (String × KeyPackage) → List Member
leaves_from i [] = []
leaves_from i ((uid, pkg) ∷ packages) =
    record { leaf_index = i; user_id = uid; public_key_hex = pkg.public_key_hex }
    ∷ leaves_from (i + 1) packages

unfoldable pub tree_members : String → List (String × KeyPackage) → List Member
tree_members creator packages =
    record { leaf_index = 0; user_id = creator; public_key_hex = "creator_root_key" }
    ∷ leaves_from 1 packages

-- A key that is no placeholder.
abbrev pub is_real_key : String → Bool
is_real_key key = truthy key && not (slice key 0 7 == "pubkey_")

module _ (p : Platform) where
  -- The package, the private key's text, and `sessionStorage` after it was kept there.
  unfoldable pub generate_key_package :
      String → String → List ℕ → ℕ → WebStorage String → KeyPackage × String × WebStorage String
  generate_key_package user device priv now session =
      let pub_hex = bytes_to_hex (p.public_of priv) in
      let priv_hex = bytes_to_hex priv in
      (
        record {
          user_id = user;
          device_id = device;
          public_key_hex = pub_hex;
          signature_hex =
              bytes_to_hex (p.digest (p.encode (user ++ (":" ++ (device ++ (":" ++ pub_hex))))));
          timestamp = now;
        },
        priv_hex,
        try_write ("genchat_mls_hpke_" ++ device) priv_hex session,
      )

  -- The bits that are shared with the owner of a public key, from its text.
  abbrev pub shared_with : List ℕ → Option (List ℕ) → Option (List ℕ)
  shared_with ephemeral none = none
  shared_with ephemeral (some key) = p.ecdh ephemeral key

  -- The encapsulation; `none` is an exception, after which the secret goes out as it is.
  abbrev pub encapsulated : List ℕ → Draw → Option (List ℕ) → String × String × String
  encapsulated secret d (some shared) =
      (bytes_to_hex (p.public_of d.ephemeral), p.btoa (p.encrypt shared d.iv secret), p.btoa d.iv)
  encapsulated secret d none =
      (bytes_to_hex (p.public_of d.ephemeral), p.btoa secret, p.btoa d.fallback_iv)

  -- The ephemeral public key, the encrypted secret and the vector of one Welcome.
  unfoldable pub wrapped : String → KeyPackage → List ℕ → Draw → String × String × String
  wrapped uid pkg secret d =
      if is_real_key pkg.public_key_hex
      then encapsulated secret d (shared_with d.ephemeral (hex_to_bytes pkg.public_key_hex))
      else (
        "",
        p.btoa (
            p.encrypt
              (p.derive_key (p.encode ("mls_welcome_key_" ++ (uid ++ ("_" ++ pkg.public_key_hex))))
                "welcome_salt" "epoch_secret_wrap")
              d.iv secret),
        p.btoa d.iv,
      )

  unfoldable pub create_welcome :
      String → List Member → List ℕ → Draw → String → KeyPackage → WelcomeEnvelope
  unfolding wrapped
  create_welcome creator members secret d uid pkg =
      let (ephemeral, ciphertext, iv) = wrapped uid pkg secret d in
      record {
        group_id = "";
        epoch = 0;
        creator_id = creator;
        ephemeral_public_key_hex = ephemeral;
        encrypted_epoch_secret_b64 = ciphertext;
        iv_b64 = iv;
        ratchet_tree = members;
      }

  unfoldable pub create_request :
      String → List (String × KeyPackage) → List ℕ → (String → Draw) → ℕ → CreateRequest
  unfolding tree_members create_welcome
  create_request creator packages secret draws now = record {
    welcomes =
        map
          (λ e. (
            e.0,
            create_welcome creator (tree_members creator packages) secret (draws e.0) e.0 e.1,
          ))
          packages;
    initial_commit = record {
      group_id = "";
      epoch = 0;
      committer_id = creator;
      action = add;
      target_user_id = none;
      added_member = none;
      new_epoch_secret_b64 = none;
      commit_hash_hex = slice (bytes_to_hex secret) 0 32;
      timestamp = now;
    };
  }

  unfoldable pub created : String → String → List (String × KeyPackage) → List ℕ → ℕ → GroupState
  unfolding tree_members
  created raw_id creator packages secret now = record {
    group_id = "chan_" ++ raw_id;
    epoch = 0;
    my_leaf_index = 0;
    epoch_secret_hex = bytes_to_hex secret;
    members = tree_members creator packages;
    updated_at = now;
  }

  -- The manager and the result after the server's answer.
  abbrev finish :
      CreateAnswer
      → (String → GroupState)
      → Manager
      → Manager × Outcome (Option (String × GroupState))
  finish threw state m = (m, rejected)
  finish refused state m = (m, resolved none)
  finish (channel raw_id) state m =
      (save_local_group_state (state raw_id) m, resolved (some ("chan_" ++ raw_id, state raw_id)))

  unfoldable pub create_group :
      (String → Option KeyPackage)
      → List String
      → String
      → List ℕ
      → (String → Draw)
      → CreateAnswer
      → ℕ
      → Manager
      → CreateRequest × Manager × Outcome (Option (String × GroupState))
  unfolding member_packages create_request created
  create_group fetched members creator secret draws answer now m =
      let packages = member_packages fetched creator members [] in
      let (m', outcome) = finish answer (λ raw_id. created raw_id creator packages secret now) m in
      (create_request creator packages secret draws now, m', outcome)
