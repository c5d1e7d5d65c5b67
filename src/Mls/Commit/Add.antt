-- ===== src/Mls/Commit/Add.antt =====
-- `addMember`.
use Prim.Native.String.{◌++◌, slice}
use mathlib.Core.List
use genchat.Base.{
  ℕ, ◌+◌, String, ◌≡◌, ◌⊎◌, inl, inr, refl, Bool-cases, false, Option, none, some, List, [], ◌∷◌,
  max, ◌==◌, if◌then◌else◌, any,
}
use genchat.Codec.Hex.{bytes_to_hex}
use genchat.Codec.Decimal.{decimal}
use genchat.Mls.Platform.{Platform}
use genchat.Mls.State.{
  Member, GroupState, Manager, get_local_group_state, save_local_group_state, group_of,
}
use genchat.Mls.Commit.{
  Action, CommitEnvelope, WelcomeEnvelope, group_commit, add_member_request, resolved, rejected,
  Reply, truthy, clean_id, Call, on, next_secret,
}

-- `reduce((max, m) => Math.max(max, m.leafIndex), 0)`
unfoldable pub max_leaf : ℕ → List Member → ℕ
max_leaf acc [] = acc
max_leaf acc (m ∷ ms) = max_leaf (max acc m.leaf_index) ms

-- The state that `addMember` begins with where none is known, with random bytes for its secret.
unfoldable pub fallback_state : String → String → List ℕ → ℕ → GroupState
fallback_state channel committer random now = record {
  group_id = channel;
  epoch = 0;
  my_leaf_index = 0;
  epoch_secret_hex = bytes_to_hex random;
  members = record { leaf_index = 0; user_id = committer; public_key_hex = "creator_root" } ∷ [];
  updated_at = now;
}

unfoldable pub new_member : String → Option String → List Member → Member
unfolding max_leaf
new_member user key ms = record {
  leaf_index = max_leaf 0 ms + 1;
  user_id = user;
  public_key_hex = elim key [ none ↦ "auto_derived" | some k ↦ k ];
}

unfoldable pub added : String → String → Option String → List ℕ → ℕ → GroupState → GroupState
unfolding new_member
added channel user key secret now st = record {
  group_id = channel;
  epoch = st.epoch + 1;
  my_leaf_index = st.my_leaf_index;
  epoch_secret_hex = bytes_to_hex secret;
  members = List.◌++◌ st.members (new_member user key st.members ∷ []);
  updated_at = now;
}

unfoldable pub add_commit : String → String → String → Member → GroupState → ℕ → CommitEnvelope
add_commit channel committer user leaf next now = record {
  group_id = channel;
  epoch = next.epoch;
  committer_id = committer;
  action = Action.add;
  target_user_id = some user;
  added_member = some leaf;
  new_epoch_secret_b64 = none;
  commit_hash_hex = slice next.epoch_secret_hex 0 32;
  timestamp = now;
}

module _ (p : Platform) where
  -- The Welcome for the invitee: no ephemeral key, and the bytes of the secret in base 64.
  unfoldable pub add_welcome : String → String → List ℕ → GroupState → WelcomeEnvelope
  add_welcome channel committer secret next = record {
    group_id = channel;
    epoch = next.epoch;
    creator_id = committer;
    ephemeral_public_key_hex = "";
    encrypted_epoch_secret_b64 = p.btoa secret;
    iv_b64 = p.btoa (p.encode ("welcome_epoch_" ++ decimal next.epoch));
    ratchet_tree = next.members;
  }

  abbrev pub add_known :
      String
      → String
      → String
      → Option String
      → Call
      → Manager
      → GroupState
      → Option (List ℕ)
      → Reply (Option GroupState)
  add_known channel user committer key c m st none = record {
    manager = m;
    effects = [];
    outcome = rejected;
  }
  add_known channel user committer key c m st (some secret) =
      let next = added channel user key secret c.now st in
      let commit = add_commit channel committer user (new_member user key st.members) next c.now in
      record {
        manager = save_local_group_state next m;
        effects = List.◌++◌ (on c.has_socket (group_commit channel next.epoch commit)) (
            on (truthy c.access_token) (
              add_member_request (clean_id channel) user next.epoch
                (add_welcome channel committer secret next) commit));
        outcome = resolved (some next);
      }

  abbrev add_to :
      String
      → String
      → String
      → Option String
      → Call
      → Manager
      → GroupState
      → Reply (Option GroupState)
  add_to channel user committer key c m st =
      if any (λ x. x.user_id == user) st.members
      then record { manager = m; effects = []; outcome = resolved (some st) }
      else add_known channel user committer key c m st (next_secret p channel st (st.epoch + 1))

  abbrev add_from :
      String
      → String
      → String
      → Option String
      → List ℕ
      → Call
      → Manager × Option GroupState
      → Reply (Option GroupState)
  add_from channel user committer key random c (m, some st) =
      add_to channel user committer key c m st
  add_from channel user committer key random c (m, none) =
      let st = fallback_state channel committer random c.now in
      add_to channel user committer key c (save_local_group_state st m) st

  -- `key` is the public key of the invitee's KeyPackage, if one was fetched.
  unfoldable pub add_member :
      String → String → String → Option String → List ℕ → Call → Manager → Reply (Option GroupState)
  add_member channel user committer key random c m =
      add_from channel user committer key random c (get_local_group_state channel m)

-- Where the group is known and the user is not a member of it, its state decides.
module _ (p : Platform) (channel user committer : String) (key : Option String) (random : List ℕ)
    (c : Call) (st : GroupState) where
  add_from_known :
      (r : Manager × Option GroupState) (o : Option (List ℕ))
      → r.1 ≡ some st
      → any (λ x. x.user_id == user) st.members ≡ false
      → next_secret p channel st (st.epoch + 1) ≡ o
      → add_from p channel user committer key random c r
        ≡ add_known p channel user committer key c r.0 st o
  add_from_known (m, none) o h new e = cc
  add_from_known (m, some s) o h new e = let q : s ≡ st = cc in rw q (rw (new, e))

  pub add_member_known :
      (m : Manager) (o : Option (List ℕ))
      → group_of channel m ≡ some st
      → any (λ x. x.user_id == user) st.members ≡ false
      → next_secret p channel st (st.epoch + 1) ≡ o
      → add_member p channel user committer key random c m
        ≡ add_known p channel user committer key c (get_local_group_state channel m).0 st o
  unfolding add_member
  add_member_known m o h new e = add_from_known (get_local_group_state channel m) o h new e

module _ (p : Platform) (channel user committer : String) (key : Option String) (random : List ℕ)
    (c : Call) where
  -- Every end of `addMember`, where `I` holds of the managers that it goes through.
  pub add_member_cases :
      (I : Manager → Type 0) (m : Manager)
      → I (get_local_group_state channel m).0
      → I (
          save_local_group_state
            (fallback_state channel committer random c.now)
            (get_local_group_state channel m).0)
      → ((n : Manager) (st : GroupState) (secret : List ℕ)
          → (group_of channel m ≡ some st) ⊎ (st ≡ fallback_state channel committer random c.now)
          → any (λ x. x.user_id == user) st.members ≡ false
          → I (save_local_group_state (added channel user key secret c.now st) n))
      → I (add_member p channel user committer key random c m).manager
  unfolding add_member
  add_member_cases I m same fresh next = ends (get_local_group_state channel m) same fresh next
    where
      step :
          (n : Manager) (st : GroupState) (o : Option (List ℕ))
          → I n
          → ((secret : List ℕ)
              → I (save_local_group_state (added channel user key secret c.now st) n))
          → I (add_known p channel user committer key c n st o).manager
      step n st none same next = same
      step n st (some secret) same next = next secret

      try_add :
          (n : Manager) (st : GroupState)
          → I n
          → ((secret : List ℕ)
              → any (λ x. x.user_id == user) st.members ≡ false
              → I (save_local_group_state (added channel user key secret c.now st) n))
          → I (add_to p channel user committer key c n st).manager
      try_add n st same next = elim (Bool-cases (any (λ x. x.user_id == user) st.members)) [
        | inl e ↦ rw e same
        | inr e ↦
            rw e
              (step n st (next_secret p channel st (st.epoch + 1)) same (λ secret. next secret e))
      ]

      ends :
          (r : Manager × Option GroupState)
          → I r.0
          → I (save_local_group_state (fallback_state channel committer random c.now) r.0)
          → ((n : Manager) (st : GroupState) (secret : List ℕ)
              → (r.1 ≡ some st) ⊎ (st ≡ fallback_state channel committer random c.now)
              → any (λ x. x.user_id == user) st.members ≡ false
              → I (save_local_group_state (added channel user key secret c.now st) n))
          → I (add_from p channel user committer key random c r).manager
      ends (n, some st) same fresh next =
          try_add n st same (λ secret absent. next n st secret (inl refl) absent)
      ends (n, none) same fresh next =
          try_add _ (fallback_state channel committer random c.now) fresh
            (λ secret absent. next _ _ secret (inr refl) absent)
