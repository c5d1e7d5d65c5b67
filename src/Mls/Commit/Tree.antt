-- ===== src/Mls/Commit/Tree.antt =====
-- The member list of a group: no user and no leaf index twice.
use mathlib.Core.List
use genchat.Base.{
  ℕ, ◌+◌, ◌≤◌, String, ◌≡◌, ◌≢◌, refl, Bool, false, any, ◌==◌, [], ◌∷◌, Option, none, some, List,
  arith, eq_iff, All, All-filter, filter, Bool-cases, inl, inr, max,
}
use genchat.Mls.State.{Member}
use genchat.Mls.Commit.{Action, rekey, CommitEnvelope, truthy, without}
use genchat.Mls.Commit.Add.{max_leaf, new_member}
use genchat.Mls.Commit.Apply.{member_changes, apply_action}

abbrev pub IsPairwise : (Member → Member → Type 0) → List Member → Type 0
IsPairwise R [] = Unit {0}
IsPairwise R (m ∷ ms) = All (R m) ms × IsPairwise R ms

abbrev pub HasOtherUser : Member → Member → Type 0
HasOtherUser a b = a.user_id ≢ b.user_id

abbrev pub HasOtherLeaf : Member → Member → Type 0
HasOtherLeaf a b = a.leaf_index ≢ b.leaf_index

-- No user and no leaf index occurs twice.
abbrev pub IsTree : List Member → Type 0
IsTree ms = IsPairwise HasOtherUser ms × IsPairwise HasOtherLeaf ms

module _ (R : Member → Member → Type 0) where
  IsPairwise-filter :
      (f : Member → Bool) (ms : List Member) → IsPairwise R ms → IsPairwise R (filter f ms)
  IsPairwise-filter f [] h = tt
  IsPairwise-filter f (m ∷ ms) (h, hs) = elim (Bool-cases (f m)) [
    | inl e ↦ rw e (All-filter (R m) f ms h, IsPairwise-filter f ms hs)
    | inr e ↦ rw e (IsPairwise-filter f ms hs)
  ]

  All-snoc :
      {a b : Member} (ms : List Member) → All (R a) ms → R a b → All (R a) (List.◌++◌ ms (b ∷ []))
  All-snoc [] h r = (r, tt)
  All-snoc (m ∷ ms) (h, hs) r = (h, All-snoc ms hs r)

  IsPairwise-snoc :
      (b : Member) (ms : List Member)
      → IsPairwise R ms
      → All (λ a. R a b) ms
      → IsPairwise R (List.◌++◌ ms (b ∷ []))
  IsPairwise-snoc b [] h a = (tt, tt)
  IsPairwise-snoc b (m ∷ ms) (h, hs) (r, rs) = (All-snoc ms h r, IsPairwise-snoc b ms hs rs)

  pub IsPairwise-without :
      (user : String) (ms : List Member) → IsPairwise R ms → IsPairwise R (without user ms)
  unfolding without
  IsPairwise-without user ms h = IsPairwise-filter _ ms h

max_leaf-ge : (acc : ℕ) (ms : List Member) → acc ≤ max_leaf acc ms
unfolding max_leaf
max_leaf-ge acc [] = omega arith
max_leaf-ge acc (m ∷ ms) = omega (arith, max_leaf-ge (max acc m.leaf_index) ms)

leaf-lt-max_leaf :
    (acc : ℕ) (ms : List Member) (b : Member)
    → b.leaf_index ≡ max_leaf acc ms + 1
    → All (λ a. HasOtherLeaf a b) ms
unfolding max_leaf
leaf-lt-max_leaf acc [] b e = tt
leaf-lt-max_leaf acc (m ∷ ms) b e = (
  λ q. absurd (omega (arith, q, e, max_leaf-ge (max acc m.leaf_index) ms)),
  leaf-lt-max_leaf (max acc m.leaf_index) ms b e,
)

other_users :
    (user : String) (ms : List Member) (b : Member)
    → b.user_id ≡ user
    → any (λ x. x.user_id == user) ms ≡ false
    → All (λ a. HasOtherUser a b) ms
other_users user [] b e h = tt
other_users user (m ∷ ms) b e h =
    (λ q. ground (arith, eq_iff m.user_id user), other_users user ms b e (ground arith))

without-users :
    (user : String) (b : Member) (ms : List Member)
    → b.user_id ≡ user
    → All (λ a. HasOtherUser a b) (without user ms)
unfolding without
without-users user b [] e = tt
without-users user b (m ∷ ms) e = elim (Bool-cases (m.user_id == user)) [
  | inl same ↦ rw same (without-users user b ms e)
  | inr other ↦ rw other ((λ q. ground (arith, eq_iff m.user_id user)), without-users user b ms e)
]

pub new_member-IsTree :
    (user : String) (key : Option String) (ms : List Member)
    → any (λ x. x.user_id == user) ms ≡ false
    → IsTree ms
    → IsTree (List.◌++◌ ms (new_member user key ms ∷ []))
unfolding new_member
new_member-IsTree user key ms new (u, l) = (
  IsPairwise-snoc HasOtherUser leaf ms u (other_users user ms leaf refl new),
  IsPairwise-snoc HasOtherLeaf leaf ms l (leaf-lt-max_leaf 0 ms leaf refl),
)
  where
    leaf : Member
    leaf = new_member user key ms

member_changes-users :
    (action : Action) (target : Option String) (leaf : Option Member) (ms : List Member)
    → IsPairwise HasOtherUser ms
    → IsPairwise HasOtherUser (member_changes action target leaf ms)
member_changes-users Action.remove none leaf ms h = h
member_changes-users Action.remove (some target) leaf ms h = elim (Bool-cases (truthy target)) [
  | inl e ↦ rw e (IsPairwise-without HasOtherUser target ms h)
  | inr e ↦ rw e h
]
member_changes-users Action.add target none ms h = h
member_changes-users Action.add target (some leaf) ms h =
    IsPairwise-snoc HasOtherUser leaf (without leaf.user_id ms)
      (IsPairwise-without HasOtherUser leaf.user_id ms h) (without-users leaf.user_id leaf ms refl)
member_changes-users rekey target leaf ms h = h

-- Any commit that comes in, also one that adds a user again, keeps the users of a list distinct.
pub apply_action-users :
    (commit : CommitEnvelope) (ms : List Member)
    → IsPairwise HasOtherUser ms
    → IsPairwise HasOtherUser (apply_action commit ms)
unfolding apply_action
apply_action-users commit ms h =
    member_changes-users commit.action commit.target_user_id commit.added_member ms h
