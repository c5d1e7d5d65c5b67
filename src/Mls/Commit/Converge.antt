-- ===== src/Mls/Commit/Converge.antt =====
-- A commit takes every member that receives it to the state of its sender.
use mathlib.Core.List
use genchat.Base.{
  ℕ, ◌+◌, String, ◌≡◌, refl, sym, ap, ◌∙◌, Bool, if◌then◌else◌, any, ◌==◌, [], ◌∷◌, true, false,
  inl, inr, Option, none, some, List, arith, eq_iff, In,
}
use genchat.Mls.Platform.{Platform}
use genchat.Mls.State.{
  Member, GroupState, Manager, get_local_group_state, group_of, save_local_group_state,
  group_of-save,
}
use genchat.Mls.Commit.{
  CommitEnvelope, Effect, group_commit, remove_member_request, Call, on, Reply, rejected,
  next_secret, without, truthy, Outcome, resolved,
}
use genchat.Mls.Commit.Advance.{
  advanced, advance_commit, advance_epoch, advance_epoch_known, after_remove, remove_member,
}
use genchat.Mls.Commit.Apply.{
  apply_action, apply_known, apply_incoming_commit, apply_incoming_commit_known,
}

-- Two members hold the same epoch, secret and member list.
pub record SameGroup (a b : GroupState) : Type 0 where
  pub epoch : a.epoch ≡ b.epoch
  pub secret : a.epoch_secret_hex ≡ b.epoch_secret_hex
  pub members : a.members ≡ b.members

-- The group of a frame that was sent, and its commit.
pub In-sent :
    (channel : String) (e e' : ℕ) (k k' : CommitEnvelope) (x : Effect) (b b' : Bool)
    → (x ≡ group_commit channel e' k' → ⊥)
    → In (group_commit channel e' k') (List.◌++◌ (on b (group_commit channel e k)) (on b' x))
    → (e' ≡ e) × (k' ≡ k)
In-sent channel e e' k k' x true b' d (inl h) = (cc, cc)
In-sent channel e e' k k' x true true d (inr (inl h)) = absurd (d (sym h))
In-sent channel e e' k k' x true true d (inr (inr h)) = absurd h
In-sent channel e e' k k' x true false d (inr h) = absurd h
In-sent channel e e' k k' x false true d (inl h) = absurd (d (sym h))
In-sent channel e e' k k' x false true d (inr h) = absurd h
In-sent channel e e' k k' x false false d h = absurd h

-- Two managers know the group, and hold the same of it.
pub record Agree (channel : String) (m n : Manager) : Type 0 where
  pub left : GroupState
  pub right : GroupState
  pub known_left : group_of channel m ≡ some left
  pub known_right : group_of channel n ≡ some right
  pub same : SameGroup left right

pub group_of-save_self :
    (st : GroupState) (channel : String) (m : Manager)
    → st.group_id ≡ channel
    → group_of channel (save_local_group_state st m) ≡ some st
group_of-save_self st channel m e =
    ground (arith, group_of-save st channel m, eq_iff st.group_id channel)

next_secret-same :
    (p : Platform) (channel : String) (a b : GroupState) (epoch : ℕ)
    → SameGroup a b
    → next_secret p channel a epoch ≡ next_secret p channel b epoch
unfolding next_secret
next_secret-same p channel a b epoch h = rw (h.secret)

apply_action-advance :
    (channel committer removed : String) (next : GroupState) (now : ℕ) (ms : List Member)
    → apply_action (advance_commit channel committer removed next now) ms
      ≡ (if truthy removed then without removed ms else ms)
unfolding apply_action advance_commit
apply_action-advance channel committer removed next now ms = ground arith

pub without_absent :
    (user : String) (ms : List Member)
    → any (λ x. x.user_id == user) ms ≡ false
    → without user ms ≡ ms
unfolding without
without_absent user [] h = refl
without_absent user (m ∷ ms) h = ground (arith, without_absent user ms)

-- A receiver that holds what the sender held takes the commit, whatever its members become.
module _ (p : Platform) (channel : String) (commit : CommitEnvelope) (now : ℕ)
    (a b : GroupState) where
  pub apply_to_same :
      (n : Manager) (secret : List ℕ)
      → group_of channel n ≡ some b
      → SameGroup a b
      → next_secret p channel a (a.epoch + 1) ≡ some secret
      → apply_incoming_commit p channel (some commit) (a.epoch + 1) now n
        ≡ apply_known p channel commit
            (a.epoch + 1)
            now
            (get_local_group_state channel n).0
            b
            (some secret)
  apply_to_same n secret known same e =
      apply_incoming_commit_known p channel commit (a.epoch + 1) now b n (some secret) known
        (omega (arith, same.epoch)) (sym (next_secret-same p channel a b (a.epoch + 1) same) ∙ e)

module _ (p : Platform) (channel committer removed : String) (c : Call) (m n : Manager) (now : ℕ)
    (a b : GroupState) (known_m : group_of channel m ≡ some a)
    (known_n : group_of channel n ≡ some b) (same : SameGroup a b) where
  advance-Agree :
      (secret : List ℕ)
      → next_secret p channel a (a.epoch + 1) ≡ some secret
      → let next = advanced channel removed secret c.now a in
        Agree channel
          (advance_epoch p channel committer removed c m).manager
          (apply_incoming_commit p channel
            (some (advance_commit channel committer removed next c.now))
            (a.epoch + 1)
            now
            n).0
  advance-Agree secret e =
      rw
        (
          advance_epoch_known p channel committer removed c a m (some secret) known_m e,
          apply_to_same p channel (advance_commit channel committer removed next c.now) now a b n
              secret known_n same e,
        )
        (record {
          left = next;
          right = _;
          known_left = group_of-save_self next channel _ (unfold advanced in refl);
          known_right = group_of-save_self _ channel _ refl;
          same =
              unfold advanced in
              record {
                epoch = refl;
                secret = refl;
                members =
                    ap (λ ms. if truthy removed then without removed ms else ms) same.members
                    ∙ sym (apply_action-advance channel committer removed next c.now b.members);
              };
        })
    where
      next : GroupState
      next = advanced channel removed secret c.now a

  -- The member that removes a user or rekeys, and any member that held the same before and takes the
  -- commit frame that it broadcast, hold the same epoch, secret and members afterwards, in an epoch
  -- one higher. This holds of the removed user too.
  pub advance_epoch-converges :
      (epoch : ℕ) (commit : CommitEnvelope)
      → In
          (group_commit channel epoch commit)
          (advance_epoch p channel committer removed c m).effects
      → (epoch ≡ a.epoch + 1)
        × Agree channel
            (advance_epoch p channel committer removed c m).manager
            (apply_incoming_commit p channel (some commit) epoch now n).0
  unfolding advanced
  advance_epoch-converges epoch commit h = sent (next_secret p channel a (a.epoch + 1)) refl
    where
      sent :
          (o : Option (List ℕ))
          → next_secret p channel a (a.epoch + 1) ≡ o
          → (epoch ≡ a.epoch + 1)
            × Agree channel
                (advance_epoch p channel committer removed c m).manager
                (apply_incoming_commit p channel (some commit) epoch now n).0
      sent none e =
          absurd (rw (advance_epoch_known p channel committer removed c a m none known_m e) at h)
      sent (some secret) e =
          let (same_epoch, same_commit) =
            In-sent channel _ epoch _ commit _ c.has_socket (truthy c.access_token) (λ d. cc)
              (rw (advance_epoch_known p channel committer removed c a m (some secret) known_m e) at
                h) in
          (same_epoch, rw (same_epoch, same_commit) (advance-Agree secret e))

-- What `removeMember` adds to `advanceEpoch` is a request to the server.
In-append_other :
    (x y : Effect) (b : Bool) (xs : List Effect)
    → (y ≡ x → ⊥)
    → In x (List.◌++◌ xs (on b y))
    → In x xs
In-append_other x y true [] d (inl e) = absurd (d (sym e))
In-append_other x y true [] d (inr h) = h
In-append_other x y false [] d h = h
In-append_other x y b (z ∷ xs) d (inl e) = inl e
In-append_other x y b (z ∷ xs) d (inr h) = inr (In-append_other x y b xs d h)

module _ (p : Platform) (channel committer target : String) (c : Call) (m : Manager) where
  pub manager-remove_member :
      (remove_member p channel committer target c m).manager
      ≡ (advance_epoch p channel committer target c m).manager
  unfolding remove_member
  manager-remove_member = ground arith

  after_remove_frame :
      (x : Effect) (r : Reply (Option GroupState)) (o : Outcome (Option GroupState))
      → ((u : String) (v : String) (w : Option ℕ) → remove_member_request u v w ≡ x → ⊥)
      → In x (after_remove p channel target c r o).effects
      → In x r.effects
  after_remove_frame x r rejected d h = h
  after_remove_frame x r (resolved st) d h =
      In-append_other x _ (truthy c.access_token) r.effects (d _ _ _) h

  pub remove_member-frame :
      (epoch : ℕ) (commit : CommitEnvelope)
      → In
          (group_commit channel epoch commit)
          (remove_member p channel committer target c m).effects
      → In
          (group_commit channel epoch commit)
          (advance_epoch p channel committer target c m).effects
  unfolding remove_member
  remove_member-frame epoch commit h =
      after_remove_frame _ (advance_epoch p channel committer target c m) _ (λ u v w e. cc) h
