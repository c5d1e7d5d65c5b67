-- ===== src/Mls/Commit/Invite.antt =====
-- A commit that adds a member takes every member that receives it to the state of its sender.
use mathlib.Core.List
use genchat.Base.{
  ℕ, ◌+◌, String, ◌≡◌, refl, sym, ap, ◌∙◌, false, any, ◌==◌, [], ◌∷◌, Option, none, some, List, In,
}
use genchat.Mls.Platform.{Platform}
use genchat.Mls.State.{Member, GroupState, Manager, group_of}
use genchat.Mls.Commit.{CommitEnvelope, group_commit, Call, next_secret, truthy}
use genchat.Mls.Commit.Add.{new_member, added, add_commit, add_member, add_member_known}
use genchat.Mls.Commit.Apply.{apply_action, apply_incoming_commit}
use genchat.Mls.Commit.Converge.{
  SameGroup, Agree, In-sent, group_of-save_self, apply_to_same, without_absent,
}

apply_action-add :
    (channel committer user : String) (leaf : Member) (next : GroupState) (now : ℕ)
    (ms : List Member)
    → any (λ x. x.user_id == leaf.user_id) ms ≡ false
    → apply_action (add_commit channel committer user leaf next now) ms ≡ List.◌++◌ ms (leaf ∷ [])
unfolding apply_action add_commit
apply_action-add channel committer user leaf next now ms absent =
    ap (λ l. List.◌++◌ l (leaf ∷ [])) (without_absent leaf.user_id ms absent)

module _ (p : Platform) (channel user committer : String) (key : Option String) (random : List ℕ)
    (c : Call) (m n : Manager) (now : ℕ) (a b : GroupState) (known_m : group_of channel m ≡ some a)
    (known_n : group_of channel n ≡ some b) (same : SameGroup a b)
    (absent : any (λ x. x.user_id == user) a.members ≡ false) where
  add-Agree :
      (secret : List ℕ)
      → next_secret p channel a (a.epoch + 1) ≡ some secret
      → let next = added channel user key secret c.now a in
        Agree channel
          (add_member p channel user committer key random c m).manager
          (apply_incoming_commit p channel
            (some (add_commit channel committer user (new_member user key a.members) next c.now))
            (a.epoch + 1)
            now
            n).0
  add-Agree secret e =
      rw
        (
          add_member_known p channel user committer key random c a m (some secret) known_m absent e,
          apply_to_same p channel
              (add_commit channel committer user (new_member user key a.members) next c.now) now a b
              n secret known_n same e,
        )
        (record {
          left = next;
          right = _;
          known_left = group_of-save_self next channel _ (unfold added in refl);
          known_right = group_of-save_self _ channel _ refl;
          same =
              unfold added in
              record {
                epoch = refl;
                secret = refl;
                members =
                    ap (λ ms. List.◌++◌ ms (new_member user key a.members ∷ [])) same.members
                    ∙ sym (
                        apply_action-add channel committer user (new_member user key a.members) next
                          c.now b.members
                          (unfold new_member in
                            ap (any (λ x. x.user_id == user)) (sym same.members) ∙ absent));
              };
        })
    where
      next : GroupState
      next = added channel user key secret c.now a

  -- The member that adds a user who is not in the group, and any member that held the same before and
  -- takes the commit frame that it broadcast, hold the same epoch, secret and members afterwards, in an
  -- epoch one higher.
  pub add_member-converges :
      (epoch : ℕ) (commit : CommitEnvelope)
      → In
          (group_commit channel epoch commit)
          (add_member p channel user committer key random c m).effects
      → (epoch ≡ a.epoch + 1)
        × Agree channel
            (add_member p channel user committer key random c m).manager
            (apply_incoming_commit p channel (some commit) epoch now n).0
  unfolding added
  add_member-converges epoch commit h = sent (next_secret p channel a (a.epoch + 1)) refl
    where
      sent :
          (o : Option (List ℕ))
          → next_secret p channel a (a.epoch + 1) ≡ o
          → (epoch ≡ a.epoch + 1)
            × Agree channel
                (add_member p channel user committer key random c m).manager
                (apply_incoming_commit p channel (some commit) epoch now n).0
      sent none e = absurd (
          rw (add_member_known p channel user committer key random c a m none known_m absent e) at
            h)
      sent (some secret) e =
          let (same_epoch, same_commit) =
            In-sent channel _ epoch _ commit _ c.has_socket (truthy c.access_token) (λ d. cc)
              (rw
                (add_member_known p channel user committer key random c a m (some secret) known_m
                  absent e)
                at h) in
          (same_epoch, rw (same_epoch, same_commit) (add-Agree secret e))
