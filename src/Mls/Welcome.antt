-- ===== src/Mls/Welcome.antt =====
-- `joinGroup`: taking a Welcome envelope.
pub mod Laws
use mathlib.Core.Option
use genchat.Base.{
  ℕ, String, Bool, true, not, ◌&&◌, Option, none, some, List, [], ◌∷◌, ◌==◌, if◌then◌else◌, find?,
}
use genchat.Codec.Hex.{bytes_to_hex, hex_to_bytes}
use genchat.Mls.Platform.{Platform}
use genchat.Mls.State.{Member, GroupState, Manager, save_local_group_state}
use genchat.Mls.Commit.{WelcomeEnvelope, Outcome, resolved, truthy}

-- The answer of JoinChannel: a bad status, no Welcome, one that `atob` or `JSON.parse` refuses, or one.
pub data JoinAnswer : Type 0 where
  refused no_welcome unreadable : JoinAnswer
  welcome : WelcomeEnvelope → JoinAnswer

infixl 5 ◌>>=◌
abbrev ◌>>=◌ : {A B : Type 0} → Option A → (A → Option B) → Option B
none >>= f = none
some a >>= f = f a

-- `welcome.ratchetTree.find(...)?.leafIndex ?? 1`
unfoldable pub leaf_of : String → List Member → ℕ
leaf_of user ms = elim (find? (λ x. x.user_id == user) ms) [ none ↦ 1 | some m ↦ m.leaf_index ]

module _ (p : Platform) where
  -- The key agreement and decryption; `none` is an exception.
  unfoldable pub unwrap : WelcomeEnvelope → String → Option (List ℕ)
  unwrap w priv_hex = hex_to_bytes priv_hex >>= λ priv.
      hex_to_bytes w.ephemeral_public_key_hex >>= λ ephemeral. p.ecdh priv ephemeral >>= λ shared.
      p.atob w.iv_b64 >>= λ iv.
      p.atob w.encrypted_epoch_secret_b64 >>= λ bytes. p.decrypt shared iv bytes

  -- A key agreement that fails, or that cannot be tried, falls back to the bytes as they came.
  unfoldable pub welcome_secret : WelcomeEnvelope → Option String → Option (List ℕ)
  unfolding unwrap
  welcome_secret w none = p.atob w.encrypted_epoch_secret_b64
  welcome_secret w (some priv_hex) =
      if truthy w.ephemeral_public_key_hex && truthy priv_hex
      then elim (unwrap w priv_hex) [
        | some secret ↦ some secret
        | none ↦ p.atob w.encrypted_epoch_secret_b64
      ]
      else p.atob w.encrypted_epoch_secret_b64

  unfoldable pub joined : String → String → WelcomeEnvelope → List ℕ → ℕ → GroupState
  unfolding leaf_of
  joined channel user w secret now = record {
    group_id = channel;
    epoch = w.epoch;
    my_leaf_index = leaf_of user w.ratchet_tree;
    epoch_secret_hex = bytes_to_hex secret;
    members = w.ratchet_tree;
    updated_at = now;
  }

  abbrev pub join_with :
      String
      → String
      → WelcomeEnvelope
      → ℕ
      → Manager
      → Option (List ℕ)
      → Manager × Option GroupState
  join_with channel user w now m none = (m, none)
  join_with channel user w now m (some secret) =
      let st = joined channel user w secret now in (save_local_group_state st m, some st)

  -- `priv_hex` is the private key found in `sessionStorage`, under the device or the user.
  unfoldable pub join_group :
      String → String → Option String → JoinAnswer → ℕ → Manager → Manager × Option GroupState
  join_group channel user priv_hex (welcome w) now m =
      join_with channel user w now m (welcome_secret w priv_hex)
  join_group channel user priv_hex _ now m = (m, none)
