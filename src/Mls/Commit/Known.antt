-- ===== src/Mls/Commit/Known.antt =====
-- What a manager knows of a group: its member list is a tree, and its epochs only grow.
use mathlib.Core.Option.{none-ne-some, some-injective}
use genchat.Base.{
  ℕ, ◌<◌, String, ◌≡◌, refl, sym, subst, ◌∙◌, true, false, any, ◌==◌, Option, none, some, List,
  Bool-cases, ◌⊎◌, inl, inr,
}
use genchat.Mls.Platform.{Platform}
use genchat.Mls.State.{
  GroupState, Manager, get_local_group_state, save_local_group_state, group_of, group_of-get,
}
use genchat.Mls.Commit.{CommitEnvelope, Call, truthy}
use genchat.Mls.Commit.Advance.{advanced, advance_epoch, advance_epoch_cases}
use genchat.Mls.Commit.Add.{fallback_state, added, add_member, add_member_cases}
use genchat.Mls.Commit.Apply.{apply_incoming_commit, apply_incoming_commit_cases}
use genchat.Mls.Commit.Converge.{group_of-save_self}
use genchat.Mls.Commit.Tree.{
  IsPairwise-without, new_member-IsTree, apply_action-users, IsPairwise, HasOtherUser, HasOtherLeaf,
  IsTree,
}

-- What is known of the group is a tree, in the form that the proofs use.
abbrev EveryTree : String → Manager → Type 0
EveryTree channel m = (st : GroupState) → group_of channel m ≡ some st → IsTree st.members

save-EveryTree :
    (channel : String) (m : Manager) (next : GroupState)
    → next.group_id ≡ channel
    → IsTree next.members
    → EveryTree channel (save_local_group_state next m)
save-EveryTree channel m next e h st known =
    let q : next ≡ st = cc (group_of-save_self next channel m e) in
    subst (λ s. IsTree s.members) q h

get-EveryTree :
    (channel : String) (m : Manager)
    → EveryTree channel m
    → EveryTree channel (get_local_group_state channel m).0
get-EveryTree channel m h st k = h st (sym (group_of-get channel m) ∙ k)

advanced-IsTree :
    (channel removed : String) (secret : List ℕ) (now : ℕ) (st : GroupState)
    → IsTree st.members
    → IsTree (advanced channel removed secret now st).members
unfolding advanced
advanced-IsTree channel removed secret now st (u, l) = elim (Bool-cases (truthy removed)) [
  | inl e ↦ rw e (
    IsPairwise-without HasOtherUser removed st.members u,
    IsPairwise-without HasOtherLeaf removed st.members l,
  )
  | inr e ↦ rw e (u, l)
]

added-IsTree :
    (channel user : String) (key : Option String) (secret : List ℕ) (now : ℕ) (st : GroupState)
    → any (λ x. x.user_id == user) st.members ≡ false
    → IsTree st.members
    → IsTree (added channel user key secret now st).members
unfolding added
added-IsTree channel user key secret now st absent h =
    new_member-IsTree user key st.members absent h

advance_epoch-EveryTree :
    (p : Platform) (channel committer removed : String) (c : Call) (m : Manager)
    → EveryTree channel m
    → EveryTree channel (advance_epoch p channel committer removed c m).manager
advance_epoch-EveryTree p channel committer removed c m h =
    advance_epoch_cases p channel committer removed c (EveryTree channel) m
      (get-EveryTree channel m h)
      λ st secret known.
        save-EveryTree channel _ (advanced channel removed secret c.now st)
          (unfold advanced in refl) (advanced-IsTree channel removed secret c.now st (h st known))

add_member-EveryTree :
    (p : Platform) (channel user committer : String) (key : Option String) (random : List ℕ)
    (c : Call) (m : Manager)
    → EveryTree channel m
    → EveryTree channel (add_member p channel user committer key random c m).manager
add_member-EveryTree p channel user committer key random c m h =
    add_member_cases p channel user committer key random c (EveryTree channel) m
      (get-EveryTree channel m h)
      (save-EveryTree channel _ first (unfold fallback_state in refl) first-IsTree)
      (λ n st secret from absent.
        save-EveryTree channel n (added channel user key secret c.now st) (unfold added in refl)
          (added-IsTree channel user key secret c.now st absent (begins st from)))
  where
    first : GroupState
    first = fallback_state channel committer random c.now

    first-IsTree : IsTree first.members
    first-IsTree = unfold fallback_state in ((tt, tt), (tt, tt))

    begins : (st : GroupState) → (group_of channel m ≡ some st) ⊎ (st ≡ first) → IsTree st.members
    begins st (inl known) = h st known
    begins st (inr e) = subst (λ s. IsTree s.members) (sym e) first-IsTree

-- What is known of the group has no user twice, in the form that the proofs use.
abbrev EveryUsers : String → Manager → Type 0
EveryUsers channel m =
    (st : GroupState) → group_of channel m ≡ some st → IsPairwise HasOtherUser st.members

apply_incoming_commit-EveryUsers :
    (p : Platform) (channel : String) (commit : CommitEnvelope) (epoch now : ℕ) (m : Manager)
    → EveryUsers channel m
    → EveryUsers channel (apply_incoming_commit p channel (some commit) epoch now m).0
apply_incoming_commit-EveryUsers p channel commit epoch now m h =
    apply_incoming_commit_cases p channel commit epoch now (λ n _. EveryUsers channel n) m
      (λ st k. h st (sym (group_of-get channel m) ∙ k))
      λ st next known newer id same_epoch members s k.
        let q : next ≡ s =
          cc (group_of-save_self next channel (get_local_group_state channel m).0 id) in
        subst (λ t. IsPairwise HasOtherUser t.members) q
          (rw members (apply_action-users commit st.members (h st known)))

-- A property of the state that is known, if one is.
abbrev OfKnown : (GroupState → Type 0) → Option GroupState → Type 0
OfKnown P none = Unit
OfKnown P (some st) = P st

every_of :
    (P : GroupState → Type 0) (o : Option GroupState)
    → OfKnown P o
    → (st : GroupState) → o ≡ some st
    → P st
every_of P none h st e = absurd (none-ne-some st e)
every_of P (some s) h st e = subst P (some-injective s st e) h

of_every :
    (P : GroupState → Type 0) (o : Option GroupState)
    → ((st : GroupState) → o ≡ some st → P st)
    → OfKnown P o
of_every P none h = tt
of_every P (some s) h = h s refl

abbrev KnowsTree : String → Manager → Type 0
KnowsTree channel m = OfKnown (λ st. IsTree st.members) (group_of channel m)

abbrev KnowsUsers : String → Manager → Type 0
KnowsUsers channel m = OfKnown (λ st. IsPairwise HasOtherUser st.members) (group_of channel m)

-- Where the known member list, if there is one, has no user and no leaf index twice, it has none twice
-- after an epoch is advanced, with or without a removal.
advance_epoch-KnowsTree :
    (p : Platform) (channel committer removed : String) (c : Call) (m : Manager)
    → KnowsTree channel m
    → KnowsTree channel (advance_epoch p channel committer removed c m).manager
advance_epoch-KnowsTree p channel committer removed c m h = of_every _ _ (
    advance_epoch-EveryTree p channel committer removed c m
      (every_of (λ st. IsTree st.members) (group_of channel m) h))

-- Where the known member list, if there is one, has no user and no leaf index twice, it has none twice
-- after a member is added.
add_member-KnowsTree :
    (p : Platform) (channel user committer : String) (key : Option String) (random : List ℕ)
    (c : Call) (m : Manager)
    → KnowsTree channel m
    → KnowsTree channel (add_member p channel user committer key random c m).manager
add_member-KnowsTree p channel user committer key random c m h = of_every _ _ (
    add_member-EveryTree p channel user committer key random c m
      (every_of (λ st. IsTree st.members) (group_of channel m) h))

-- Where the known member list, if there is one, has no user twice, it has none twice after any incoming
-- commit.
apply_incoming_commit-KnowsUsers :
    (p : Platform) (channel : String) (commit : CommitEnvelope) (epoch now : ℕ) (m : Manager)
    → KnowsUsers channel m
    → KnowsUsers channel (apply_incoming_commit p channel (some commit) epoch now m).0
apply_incoming_commit-KnowsUsers p channel commit epoch now m h = of_every _ _ (
    apply_incoming_commit-EveryUsers p channel commit epoch now m
      (every_of (λ st. IsPairwise HasOtherUser st.members) (group_of channel m) h))

-- A commit that is accepted has a higher epoch than the one known, and becomes the epoch known.
-- One that is not accepted leaves what is known of the group as it was.
pub apply_incoming_commit-epoch :
    (p : Platform) (channel : String) (commit : CommitEnvelope) (epoch now : ℕ) (m : Manager)
    → let r = apply_incoming_commit p channel (some commit) epoch now m in
      ((r.1 ≡ false) × (group_of channel r.0 ≡ group_of channel m))
      ⊎ ((old next : GroupState) × (r.1 ≡ true)
          × (group_of channel m ≡ some old)
          × (group_of channel r.0 ≡ some next)
          × (old.epoch < next.epoch)
          × (next.epoch ≡ epoch))
apply_incoming_commit-epoch p channel commit epoch now m =
    apply_incoming_commit_cases p channel commit epoch now
      (λ n b.
        ((b ≡ false) × (group_of channel n ≡ group_of channel m))
        ⊎ ((old next : GroupState) × (b ≡ true)
            × (group_of channel m ≡ some old)
            × (group_of channel n ≡ some next)
            × (old.epoch < next.epoch)
            × (next.epoch ≡ epoch)))
      m (inl (refl, group_of-get channel m))
      λ st next known newer id same_epoch members. inr (
        st,
        next,
        refl,
        known,
        group_of-save_self next channel (get_local_group_state channel m).0 id,
        rw same_epoch newer,
        same_epoch,
      )
