-- ===== src/Mls/Commit/Apply.antt =====
-- `applyIncomingCommit`.
use mathlib.Core.List
use genchat.Base.{
  ℕ, ◌<◌, String, ◌≡◌, refl, arith, Bool, true, false, Option, none, some, List, [], ◌∷◌, leb,
  Bool-cases, inl, inr, if◌then◌else◌,
}
use genchat.Codec.Hex.{bytes_to_hex}
use genchat.Mls.Platform.{Platform}
use genchat.Mls.State.{
  Member, GroupState, Manager, get_local_group_state, save_local_group_state, group_of,
}
use genchat.Mls.Commit.{Action, CommitEnvelope, truthy, next_secret, without}

-- The members after a commit that comes in.
abbrev pub member_changes : Action → Option String → Option Member → List Member → List Member
member_changes Action.remove (some target) a ms = if truthy target then without target ms else ms
member_changes Action.add t (some a) ms = List.◌++◌ (without a.user_id ms) (a ∷ [])
member_changes _ _ _ ms = ms

unfoldable pub apply_action : CommitEnvelope → List Member → List Member
unfolding without
apply_action commit ms = member_changes commit.action commit.target_user_id commit.added_member ms

module _ (p : Platform) where
  abbrev pub apply_known :
      String → CommitEnvelope → ℕ → ℕ → Manager → GroupState → Option (List ℕ) → Manager × Bool
  apply_known channel commit epoch now m st none = (m, false)
  apply_known channel commit epoch now m st (some secret) = (
    save_local_group_state
        (record {
          group_id = channel;
          epoch = epoch;
          my_leaf_index = st.my_leaf_index;
          epoch_secret_hex = bytes_to_hex secret;
          members = apply_action commit st.members;
          updated_at = now;
        })
        m,
    true,
  )

  abbrev apply_from : String → CommitEnvelope → ℕ → ℕ → Manager × Option GroupState → Manager × Bool
  apply_from channel commit epoch now (m, none) = (m, false)
  apply_from channel commit epoch now (m, some st) =
      if leb epoch st.epoch
      then (m, false)
      else apply_known channel commit epoch now m st (next_secret p channel st epoch)

  -- `none` is a text that `atob` or `JSON.parse` refuses; every exception is caught.
  unfoldable pub apply_incoming_commit :
      String → Option CommitEnvelope → ℕ → ℕ → Manager → Manager × Bool
  apply_incoming_commit channel none epoch now m = (m, false)
  apply_incoming_commit channel (some commit) epoch now m =
      apply_from channel commit epoch now (get_local_group_state channel m)

lt→leb : (a b : ℕ) → b < a → leb a b ≡ false
lt→leb a b h = ground arith

-- Where the group is known and the commit is newer, its state decides.
module _ (p : Platform) (channel : String) (commit : CommitEnvelope) (epoch now : ℕ)
    (st : GroupState) where
  apply_from_known :
      (r : Manager × Option GroupState) (o : Option (List ℕ))
      → r.1 ≡ some st
      → st.epoch < epoch
      → next_secret p channel st epoch ≡ o
      → apply_from p channel commit epoch now r ≡ apply_known p channel commit epoch now r.0 st o
  apply_from_known (m, none) o h lt e = cc
  apply_from_known (m, some s) o h lt e =
      let q : s ≡ st = cc in rw q (rw (lt→leb epoch st.epoch lt, e))

  pub apply_incoming_commit_known :
      (m : Manager) (o : Option (List ℕ))
      → group_of channel m ≡ some st
      → st.epoch < epoch
      → next_secret p channel st epoch ≡ o
      → apply_incoming_commit p channel (some commit) epoch now m
        ≡ apply_known p channel commit epoch now (get_local_group_state channel m).0 st o
  unfolding apply_incoming_commit
  apply_incoming_commit_known m o h lt e =
      apply_from_known (get_local_group_state channel m) o h lt e

module _ (p : Platform) (channel : String) (commit : CommitEnvelope) (epoch now : ℕ) where
  -- Every end of `applyIncomingCommit`: nothing is saved, or a newer state with the commit's members.
  pub apply_incoming_commit_cases :
      (P : Manager → Bool → Type 0) (m : Manager)
      → P (get_local_group_state channel m).0 false
      → ((st next : GroupState)
          → group_of channel m ≡ some st
          → st.epoch < epoch
          → next.group_id ≡ channel
          → next.epoch ≡ epoch
          → next.members ≡ apply_action commit st.members
          → P (save_local_group_state next (get_local_group_state channel m).0) true)
      → P
          (apply_incoming_commit p channel (some commit) epoch now m).0
          (apply_incoming_commit p channel (some commit) epoch now m).1
  unfolding apply_incoming_commit
  apply_incoming_commit_cases P m same next = ends (get_local_group_state channel m) same next
    where
      step :
          (n : Manager) (st : GroupState) (o : Option (List ℕ))
          → P n false
          → ((next : GroupState)
              → next.group_id ≡ channel
              → next.epoch ≡ epoch
              → next.members ≡ apply_action commit st.members
              → P (save_local_group_state next n) true)
          → P
              (apply_known p channel commit epoch now n st o).0
              (apply_known p channel commit epoch now n st o).1
      step n st none same next = same
      step n st (some secret) same next = next _ refl refl refl

      ends :
          (r : Manager × Option GroupState)
          → P r.0 false
          → ((st next : GroupState)
              → r.1 ≡ some st
              → st.epoch < epoch
              → next.group_id ≡ channel
              → next.epoch ≡ epoch
              → next.members ≡ apply_action commit st.members
              → P (save_local_group_state next r.0) true)
          → P
              (apply_from p channel commit epoch now r).0
              (apply_from p channel commit epoch now r).1
      ends (n, none) same next = same
      ends (n, some st) same next = elim (Bool-cases (leb epoch st.epoch)) [
        | inl old ↦ rw old same
        | inr new ↦
            rw new
              (step n st (next_secret p channel st epoch) same (λ s. next st s refl (ground arith)))
      ]
