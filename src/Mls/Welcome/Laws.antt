-- ===== src/Mls/Welcome/Laws.antt =====
-- What an invitee takes from a Welcome.
use mathlib.Core.List
use mathlib.Core.Option
use genchat.Base.{
  ℕ, ◌+◌, String, ◌≡◌, refl, true, false, Option, none, some, List, [], ◌∷◌, arith, ◌==◌, eq_refl,
  any, find?, In, In-append_right, inl,
}
use genchat.Mls.Platform.{Platform, Lawful, IsBytes}
use genchat.Mls.State.{Member, GroupState, Manager, group_of}
use genchat.Mls.Commit.{
  WelcomeEnvelope, CommitEnvelope, Call, resolved, next_secret, truthy, clean_id,
  add_member_request, group_commit, on,
}
use genchat.Mls.Commit.Add.{
  new_member, added, add_commit, add_welcome, add_member, add_member_known,
}
use genchat.Mls.Commit.Converge.{SameGroup, group_of-save_self}
use genchat.Mls.Welcome.{welcome, leaf_of, welcome_secret, joined, join_group}

find-new :
    (user : String) (leaf : Member) (ms : List Member)
    → leaf.user_id ≡ user
    → any (λ x. x.user_id == user) ms ≡ false
    → find? (λ x. x.user_id == user) (List.◌++◌ ms (leaf ∷ [])) ≡ some leaf
find-new user leaf [] e h = ground (arith, eq_refl user)
find-new user leaf (m ∷ ms) e h = ground (arith, find-new user leaf ms e)

module _ (p : Platform) (lawful : Lawful p) (channel user committer : String) (key : Option String)
    (random : List ℕ) (c : Call) (m n : Manager) (now : ℕ) (a : GroupState)
    (known : group_of channel m ≡ some a)
    (absent : any (λ x. x.user_id == user) a.members ≡ false) where
  welcome_secret-add :
      (secret : List ℕ) (next : GroupState) (priv_hex : Option String)
      → IsBytes secret
      → welcome_secret p (add_welcome p channel committer secret next) priv_hex ≡ some secret
  unfolding welcome_secret add_welcome
  welcome_secret-add secret next none h = lawful.atob-btoa secret h
  welcome_secret-add secret next (some k) h = lawful.atob-btoa secret h

  leaf_of-added :
      (secret : List ℕ)
      → leaf_of user (added channel user key secret c.now a).members
        ≡ (new_member user key a.members).leaf_index
  unfolding leaf_of added
  leaf_of-added secret = rw (
    find-new user (new_member user key a.members) a.members (unfold new_member in refl) absent,
    leaf_of,
  )

  next_secret-IsBytes :
      (secret : List ℕ) → next_secret p channel a (a.epoch + 1) ≡ some secret → IsBytes secret
  unfolding next_secret
  next_secret-IsBytes secret e =
      let (prev, found, same) = (Option.map-eq-some_iff _ _).0 e in
      rw (← same) (lawful.derived_bytes prev _ _)

  -- Where the group is known with a secret that gives a next one, the user is not in it, and an access
  -- token is passed: the invitee of `addMember` who takes the Welcome that is sent to the server with
  -- it, with any private key or none, holds the epoch, secret and members of the sender, and the leaf
  -- that the sender gave to the invitee. The platform's operations are assumed to be lawful.
  pub join_group-add_member :
      (secret : List ℕ) (priv_hex : Option String)
      → next_secret p channel a (a.epoch + 1) ≡ some secret
      → truthy c.access_token ≡ true
      → (s t : GroupState) × (w : WelcomeEnvelope) × (commit : CommitEnvelope) × ((add_member p
            channel user committer key random c m).outcome
          ≡ resolved (some s))
        × In
            (add_member_request (clean_id channel) user s.epoch w commit)
            (add_member p channel user committer key random c m).effects
        × ((join_group p channel user priv_hex (welcome w) now n).1 ≡ some t)
        × (group_of channel (join_group p channel user priv_hex (welcome w) now n).0 ≡ some t)
        × SameGroup s t
        × (t.my_leaf_index ≡ (new_member user key a.members).leaf_index)
  unfolding join_group
  join_group-add_member secret priv_hex e token = (
    next,
    taken,
    w,
    commit,
    rw (add_member_known p channel user committer key random c a m (some secret) known absent e)
        refl,
    rw (add_member_known p channel user committer key random c a m (some secret) known absent e) (
        In-append_right _ (on c.has_socket (group_commit channel next.epoch commit)) _
          (rw token (inl refl))),
    rw opens refl,
    rw opens (group_of-save_self taken channel n (unfold joined in refl)),
    unfold joined add_welcome added in record { epoch = refl; secret = refl; members = refl },
    unfold joined add_welcome in leaf_of-added secret,
  )
    where
      next : GroupState
      next = added channel user key secret c.now a

      w : WelcomeEnvelope
      w = add_welcome p channel committer secret next

      taken : GroupState
      taken = joined p channel user w secret now

      commit : CommitEnvelope
      commit = add_commit channel committer user (new_member user key a.members) next c.now

      opens : welcome_secret p w priv_hex ≡ some secret
      opens = welcome_secret-add secret next priv_hex (next_secret-IsBytes secret e)
