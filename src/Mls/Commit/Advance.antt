-- ===== src/Mls/Commit/Advance.antt =====
-- `advanceEpoch`, `removeMember` and `leaveGroup`.
use Prim.Native.String.{slice}
use mathlib.Core.Option
use mathlib.Core.List
use genchat.Base.{
  ℕ, ◌+◌, String, ◌≡◌, refl, Bool, false, Option, none, some, List, [], ◌∷◌, if◌then◌else◌,
}
use genchat.Codec.Hex.{bytes_to_hex}
use genchat.Mls.Platform.{Platform}
use genchat.Mls.State.{
  GroupState, Manager, get_local_group_state, save_local_group_state, clear_local_group_state,
  group_of,
}
use genchat.Mls.Commit.{
  Action, rekey, CommitEnvelope, group_commit, commit_epoch, remove_member_request, leave_channel,
  Outcome, resolved, rejected, Reply, truthy, clean_id, Call, on, next_secret, without,
}

-- The new state of `advanceEpoch`, and its commit.
unfoldable pub advanced : String → String → List ℕ → ℕ → GroupState → GroupState
unfolding without
advanced channel removed secret now st = record {
  group_id = channel;
  epoch = st.epoch + 1;
  my_leaf_index = st.my_leaf_index;
  epoch_secret_hex = bytes_to_hex secret;
  members = if truthy removed then without removed st.members else st.members;
  updated_at = now;
}

unfoldable pub advance_commit : String → String → String → GroupState → ℕ → CommitEnvelope
advance_commit channel committer removed next now = record {
  group_id = channel;
  epoch = next.epoch;
  committer_id = committer;
  action = if truthy removed then Action.remove else rekey;
  target_user_id = if truthy removed then some removed else none;
  added_member = none;
  new_epoch_secret_b64 = none;
  commit_hash_hex = slice next.epoch_secret_hex 0 32;
  timestamp = now;
}

module _ (p : Platform) where
  abbrev pub advance_known :
      String
      → String
      → String
      → Call
      → Manager
      → GroupState
      → Option (List ℕ)
      → Reply (Option GroupState)
  advance_known channel committer removed c m st none = record {
    manager = m;
    effects = [];
    outcome = rejected;
  }
  advance_known channel committer removed c m st (some secret) =
      let next = advanced channel removed secret c.now st in
      let commit = advance_commit channel committer removed next c.now in
      record {
        manager = save_local_group_state next m;
        effects =
            List.◌++◌ (on c.has_socket (group_commit channel next.epoch commit))
              (on (truthy c.access_token) (commit_epoch (clean_id channel) next.epoch commit));
        outcome = resolved (some next);
      }

  abbrev advance_from :
      String → String → String → Call → Manager × Option GroupState → Reply (Option GroupState)
  advance_from channel committer removed c (m, none) = record {
    manager = m;
    effects = [];
    outcome = resolved none;
  }
  advance_from channel committer removed c (m, some st) =
      advance_known channel committer removed c m st (next_secret p channel st (st.epoch + 1))

  -- `removed` is the empty text where `removedUserId` is not given.
  unfoldable pub advance_epoch :
      String → String → String → Call → Manager → Reply (Option GroupState)
  advance_epoch channel committer removed c m =
      advance_from channel committer removed c (get_local_group_state channel m)

  abbrev epoch_of : Option GroupState → Option ℕ
  epoch_of = Option.map (λ st. st.epoch)

  -- A rejection of `advanceEpoch` passes through.
  abbrev pub after_remove :
      String
      → String
      → Call
      → Reply (Option GroupState)
      → Outcome (Option GroupState)
      → Reply (Option GroupState)
  after_remove channel target c r rejected = r
  after_remove channel target c r (resolved st) = record r {
    effects = List.◌++◌ r.effects (
        on (truthy c.access_token) (remove_member_request (clean_id channel) target (epoch_of st)));
  }

  unfoldable pub remove_member :
      String → String → String → Call → Manager → Reply (Option GroupState)
  remove_member channel committer target c m =
      let r = advance_epoch channel committer target c m in
      after_remove channel target c r r.outcome

  -- `left_ok`: the LeaveChannel request does not throw. An exception is caught.
  abbrev after_leave :
      String → Bool → Reply (Option GroupState) → Outcome (Option GroupState) → Reply Bool
  after_leave channel left_ok r rejected = record {
    manager = r.manager;
    effects = r.effects;
    outcome = resolved false;
  }
  after_leave channel left_ok r (resolved st) = record {
    manager = if left_ok then clear_local_group_state channel r.manager else r.manager;
    effects = List.◌++◌ r.effects (leave_channel (clean_id channel) ∷ []);
    outcome = resolved left_ok;
  }

  unfoldable pub leave_group : String → String → Bool → Call → Manager → Reply Bool
  leave_group channel user left_ok c m =
      let r = advance_epoch channel user user c m in after_leave channel left_ok r r.outcome

-- Where the group is known, the reply follows from its state and the bits of the next secret.
module _ (p : Platform) (channel committer removed : String) (c : Call) (st : GroupState) where
  advance_from_known :
      (r : Manager × Option GroupState) (o : Option (List ℕ))
      → r.1 ≡ some st
      → next_secret p channel st (st.epoch + 1) ≡ o
      → advance_from p channel committer removed c r
        ≡ advance_known p channel committer removed c r.0 st o
  advance_from_known (m, none) o h e = cc
  advance_from_known (m, some s) o h e = let q : s ≡ st = cc in rw q (rw e)

  pub advance_epoch_known :
      (m : Manager) (o : Option (List ℕ))
      → group_of channel m ≡ some st
      → next_secret p channel st (st.epoch + 1) ≡ o
      → advance_epoch p channel committer removed c m
        ≡ advance_known p channel committer removed c (get_local_group_state channel m).0 st o
  unfolding advance_epoch
  advance_epoch_known m o h e = advance_from_known (get_local_group_state channel m) o h e

module _ (p : Platform) (channel committer removed : String) (c : Call) where
  -- Every end of `advanceEpoch`: nothing is saved, or the next state of the one that is known.
  pub advance_epoch_cases :
      (P : Manager → Type 0) (m : Manager)
      → P (get_local_group_state channel m).0
      → ((st : GroupState) (secret : List ℕ)
          → group_of channel m ≡ some st
          → P (
              save_local_group_state
                (advanced channel removed secret c.now st)
                (get_local_group_state channel m).0))
      → P (advance_epoch p channel committer removed c m).manager
  unfolding advance_epoch
  advance_epoch_cases P m same next = ends (get_local_group_state channel m) same next
    where
      step :
          (n : Manager) (st : GroupState) (o : Option (List ℕ))
          → P n
          → ((secret : List ℕ)
              → P (save_local_group_state (advanced channel removed secret c.now st) n))
          → P (advance_known p channel committer removed c n st o).manager
      step n st none same next = same
      step n st (some secret) same next = next secret

      ends :
          (r : Manager × Option GroupState)
          → P r.0
          → ((st : GroupState) (secret : List ℕ)
              → r.1 ≡ some st
              → P (save_local_group_state (advanced channel removed secret c.now st) r.0))
          → P (advance_from p channel committer removed c r).manager
      ends (n, none) same next = same
      ends (n, some st) same next =
          step n st (next_secret p channel st (st.epoch + 1)) same (λ secret. next st secret refl)
