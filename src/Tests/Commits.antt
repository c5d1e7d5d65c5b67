-- ===== src/Tests/Commits.antt =====
-- The theorems on commits and on the group state, at the sample.
use Prim.Native.String.{◌++◌}
use genchat.Base.{
  ℕ, ◌+◌, ◌<◌, ◌≡◌, refl, ◌⊎◌, inl, true, false, some, List, [], ◌∷◌, arith, lookup, In,
}
use genchat.Codec.Hex.{hex_to_bytes-bytes_to_hex}
use genchat.Codec.Decimal.{decimal}
use genchat.Mls.State.{GroupState, get_local_group_state, group_of}
use genchat.Mls.Commit.{
  CommitEnvelope, WelcomeEnvelope, group_commit, add_member_request, next_secret, resolved,
  clean_id,
}
use genchat.Mls.Commit.Advance.{advanced, advance_commit, advance_epoch, advance_epoch_known}
use genchat.Mls.Commit.Apply.{apply_incoming_commit}
use genchat.Mls.Commit.Add.{new_member, added, add_commit, add_member, add_member_known}
use genchat.Mls.Commit.Converge.{SameGroup, Agree, advance_epoch-converges}
use genchat.Mls.Commit.Invite.{add_member-converges}
use genchat.Mls.Commit.Known.{apply_incoming_commit-epoch}
use genchat.Mls.Welcome.{join_group, welcome}
use genchat.Mls.Welcome.Laws.{join_group-add_member}
use genchat.Tests.Sample.{
  sample, sample-Lawful, group, group_of_bob, manager, manager_of_bob, newcomer, call, same_group,
}

abbrev pub next_bits : List ℕ
next_bits =
    sample.derive_bits (7 ∷ []) ("mls_epoch_salt_" ++ decimal 5)
      ("mls_epoch_transition_" ++ ("c" ++ ("_" ++ decimal 5)))

pub next_secret-sample : next_secret sample "c" group 5 ≡ some next_bits
unfolding next_secret
next_secret-sample = rw (hex_to_bytes-bytes_to_hex 7 [] (omega arith, tt)) refl

pub known_group : group_of "c" manager ≡ some group
unfolding get_local_group_state lookup
known_group = refl

pub known_group_of_bob : group_of "c" manager_of_bob ≡ some group_of_bob
unfolding get_local_group_state lookup
known_group_of_bob = refl

abbrev pub removal : CommitEnvelope
removal = advance_commit "c" "ann" "bob" (advanced "c" "bob" next_bits 100 group) 100

pub removal_sent :
    In (group_commit "c" 5 removal) (advance_epoch sample "c" "ann" "bob" call manager).effects
unfolding advanced
removal_sent =
    rw
      (advance_epoch_known sample "c" "ann" "bob" call group manager (some next_bits) known_group
        next_secret-sample)
      (inl refl)

abbrev invitation : CommitEnvelope
invitation =
    add_commit "c" "ann" "eve" (new_member "eve" (some "0e") group.members)
      (added "c" "eve" (some "0e") next_bits 100 group) 100

invitation_sent :
    In
      (group_commit "c" 5 invitation)
      (add_member sample "c" "eve" "ann" (some "0e") (1 ∷ []) call manager).effects
unfolding added
invitation_sent =
    rw
      (add_member_known sample "c" "eve" "ann" (some "0e") (1 ∷ []) call group manager
        (some next_bits) known_group refl next_secret-sample)
      (inl refl)

advance_epoch-converges_example :
    (5 ≡ group.epoch + 1)
    × Agree "c"
        (advance_epoch sample "c" "ann" "bob" call manager).manager
        (apply_incoming_commit sample "c" (some removal) 5 101 manager_of_bob).0
advance_epoch-converges_example =
    advance_epoch-converges sample "c" "ann" "bob" call manager manager_of_bob 101 group
      group_of_bob known_group known_group_of_bob same_group 5 removal removal_sent

add_member-converges_example :
    (5 ≡ group.epoch + 1)
    × Agree "c"
        (add_member sample "c" "eve" "ann" (some "0e") (1 ∷ []) call manager).manager
        (apply_incoming_commit sample "c" (some invitation) 5 101 manager_of_bob).0
add_member-converges_example =
    add_member-converges sample "c" "eve" "ann" (some "0e") (1 ∷ []) call manager manager_of_bob 101
      group group_of_bob known_group known_group_of_bob same_group refl 5 invitation invitation_sent

join_group-add_member_example :
    (s t : GroupState) × (w : WelcomeEnvelope) × (commit : CommitEnvelope) × ((add_member sample "c"
        "eve" "ann"
        (some "0e")
        (1 ∷ [])
        call
        manager).outcome
      ≡ resolved (some s))
    × In
        (add_member_request (clean_id "c") "eve" s.epoch w commit)
        (add_member sample "c" "eve" "ann" (some "0e") (1 ∷ []) call manager).effects
    × ((join_group sample "c" "eve" (some "0e") (welcome w) 101 newcomer).1 ≡ some t)
    × (group_of "c" (join_group sample "c" "eve" (some "0e") (welcome w) 101 newcomer).0 ≡ some t)
    × SameGroup s t
    × (t.my_leaf_index ≡ (new_member "eve" (some "0e") group.members).leaf_index)
join_group-add_member_example =
    join_group-add_member sample sample-Lawful "c" "eve" "ann" (some "0e") (1 ∷ []) call manager
      newcomer 101 group known_group refl next_bits (some "0e") next_secret-sample refl

apply_incoming_commit-epoch_example :
    let r = apply_incoming_commit sample "c" (some removal) 5 101 manager_of_bob in
    ((r.1 ≡ false) × (group_of "c" r.0 ≡ group_of "c" manager_of_bob))
    ⊎ ((old next : GroupState) × (r.1 ≡ true)
        × (group_of "c" manager_of_bob ≡ some old)
        × (group_of "c" r.0 ≡ some next)
        × (old.epoch < next.epoch)
        × (next.epoch ≡ 5))
apply_incoming_commit-epoch_example =
    apply_incoming_commit-epoch sample "c" removal 5 101 manager_of_bob
