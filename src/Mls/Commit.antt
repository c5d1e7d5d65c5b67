-- ===== src/Mls/Commit.antt =====
-- Epoch transitions: `advanceEpoch`, `removeMember`, `leaveGroup`, `addMember` and
-- `applyIncomingCommit`. The clock, the random bytes and the answers of the server are arguments.
pub mod Advance
pub mod Apply
pub mod Add
pub mod Converge
pub mod Invite
pub mod Tree
pub mod Known
use Prim.Native.String.{◌++◌, slice, find, len}
use mathlib.Core.Option
use mathlib.Core.List
use genchat.Base.{
  ℕ, suc, ◌+◌, String, ◌≡◌, Bool, true, false, not, ◌&&◌, Option, none, some, List, [], ◌∷◌, max,
  ◌==◌, leb, ltb, if◌then◌else◌, any, filter,
}
use genchat.Codec.Hex.{bytes_to_hex, hex_to_bytes}
use genchat.Codec.Decimal.{decimal}
use genchat.Mls.Platform.{Platform}
use genchat.Mls.State.{
  Member, GroupState, Manager, get_local_group_state, save_local_group_state,
  clear_local_group_state,
}

pub data Action : Type 0 where
  add remove rekey : Action

pub record CommitEnvelope : Type 0 where
  pub group_id : String
  pub epoch : ℕ
  pub committer_id : String
  pub action : Action
  pub target_user_id : Option String
  pub added_member : Option Member
  pub new_epoch_secret_b64 : Option String
  pub commit_hash_hex : String
  pub timestamp : ℕ

pub record WelcomeEnvelope : Type 0 where
  pub group_id : String
  pub epoch : ℕ
  pub creator_id : String
  pub ephemeral_public_key_hex : String
  pub encrypted_epoch_secret_b64 : String
  pub iv_b64 : String
  pub ratchet_tree : List Member

-- What the manager sends: a frame by `wsSend`, or a request that is not awaited.
pub data Effect : Type 0 where
  group_commit : String → ℕ → CommitEnvelope → Effect
  commit_epoch : String → ℕ → CommitEnvelope → Effect
  add_member_request : String → String → ℕ → WelcomeEnvelope → CommitEnvelope → Effect
  remove_member_request : String → String → Option ℕ → Effect
  leave_channel : String → Effect

-- The end of an async method: a value, or a rejected promise.
pub data Outcome {ℓ} (A : Type ℓ) : Type ℓ where
  resolved : A → Outcome A
  rejected : Outcome A

pub record Reply (A : Type 0) : Type 0 where
  pub manager : Manager
  pub effects : List Effect
  pub outcome : Outcome A

-- A text that is not empty is true.
abbrev pub truthy : String → Bool
truthy s = not (s == "")

-- `channelId.replace('chan_', '')`: the first occurrence is dropped.
unfoldable pub clean_id : String → String
clean_id s =
    let i = find s "chan_" in if ltb (len s) i then s else slice s 0 i ++ slice s (i + 5) (len s)

-- What the caller passes to `advanceEpoch` and `addMember`: the access token, whether `wsSend` is
-- given, and the time.
pub record Call : Type 0 where
  pub access_token : String
  pub has_socket : Bool
  pub now : ℕ

abbrev pub on {ℓ} : {A : Type ℓ} → Bool → A → List A
on b a = if b then a ∷ [] else []

unfoldable pub without : String → List Member → List Member
without user ms = filter (λ m. not (m.user_id == user)) ms

module _ (p : Platform) where
  open p use {derive_bits}

  -- The bits of the next epoch, from the secret of this one.
  unfoldable pub next_secret : String → GroupState → ℕ → Option (List ℕ)
  next_secret channel st epoch =
      Option.map
        (λ prev.
          derive_bits prev ("mls_epoch_salt_" ++ decimal epoch)
            ("mls_epoch_transition_" ++ (channel ++ ("_" ++ decimal epoch))))
        (hex_to_bytes st.epoch_secret_hex)
