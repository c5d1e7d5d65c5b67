-- ===== src/Tests/Groups.antt =====
-- The theorems on the Welcomes of a new group, at the sample.
use Prim.Native.String.{◌++◌}
use genchat.Base.{
  String, ◌≡◌, refl, inl, ◌==◌, true, Option, none, some, List, [], ◌∷◌, arith, In, insert, ℕ, ◌<◌,
  ◌≢◌, length, if◌then◌else◌,
}
use genchat.Codec.Hex.{bytes_to_hex, hex_digit}
use genchat.Mls.State.{GroupState, group_of}
use genchat.Mls.Commit.{WelcomeEnvelope, resolved}
use genchat.Mls.Commit.Converge.{SameGroup}
use genchat.Mls.Welcome.{welcome, join_group}
use genchat.Mls.Create.{
  KeyPackage, Draw, channel, member_packages, is_real_key, create_welcome, create_group,
}
use genchat.Mls.Create.Laws.{join_group-create_group, join_group-placeholder}
use genchat.Tests.Sample.{sample, sample-Lawful, newcomer, ann}

abbrev bob_package : KeyPackage
bob_package = record {
  user_id = "bob";
  device_id = "phone";
  public_key_hex = bytes_to_hex (5 ∷ []);
  signature_hex = "00";
  timestamp = 1;
}

abbrev directory : String → Option KeyPackage
directory user = if user == "bob" then some bob_package else none

abbrev draw : Draw
draw = record { ephemeral = 6 ∷ []; iv = 9 ∷ []; fallback_iv = 8 ∷ [] }

bob_package-is_real_key : is_real_key bob_package.public_key_hex ≡ true
unfolding bytes_to_hex hex_digit
bob_package-is_real_key = refl

package_found : In ("bob", bob_package) (member_packages directory "ann" ("ann" ∷ "bob" ∷ []) [])
unfolding member_packages insert
package_found = inl refl

join_group-create_group_example :
    let (request, m', outcome) =
      create_group sample directory
        ("ann" ∷ "bob" ∷ [])
        "ann"
        (7 ∷ [])
        (λ _. draw)
        (channel "9")
        100
        newcomer in
    (w : WelcomeEnvelope) × (s t : GroupState) × In ("bob", w) request.welcomes
    × (outcome ≡ resolved (some ("chan_" ++ "9", s)))
    × (group_of ("chan_" ++ "9") m' ≡ some s)
    × ((join_group sample
          ("chan_" ++ "9")
          "bob"
          (some (bytes_to_hex (5 ∷ [])))
          (welcome w)
          101
          newcomer).1
        ≡ some t)
    × SameGroup s t
join_group-create_group_example =
    join_group-create_group sample sample-Lawful directory ("ann" ∷ "bob" ∷ []) "ann" "bob" "9"
      (7 ∷ []) (λ _. draw) 100 101 newcomer newcomer bob_package 5 [] 5 [] 6 [] (11 ∷ [])
      (omega arith, tt) (omega arith, tt) (omega arith, tt) (omega arith, tt) refl refl refl
      bob_package-is_real_key refl package_found

abbrev placeholder : KeyPackage
placeholder = record bob_package { public_key_hex = "pubkey_bob" }

abbrev secret : List ℕ
secret = 7 ∷ []

longer_test : (k iv : List ℕ) → length secret < length (sample.encrypt k iv secret)
longer_test k iv = omega arith

join_group-placeholder_example :
    let key =
      sample.derive_key
        (sample.encode ("mls_welcome_key_" ++ ("bob" ++ ("_" ++ "pubkey_bob"))))
        "welcome_salt"
        "epoch_secret_wrap" in
    (t : GroupState) × ((join_group sample "c" "bob"
        (some "05")
        (welcome (create_welcome sample "ann" (ann ∷ []) (7 ∷ []) draw "bob" placeholder))
        101
        newcomer).1
      ≡ some t)
    × (t.epoch_secret_hex ≡ bytes_to_hex (sample.encrypt key draw.iv (7 ∷ [])))
    × (t.epoch_secret_hex ≢ bytes_to_hex (7 ∷ []))
join_group-placeholder_example =
    join_group-placeholder sample sample-Lawful "ann" "bob" "c" (ann ∷ []) placeholder draw 7 []
      (some "05") 101 newcomer (omega arith, tt) longer_test refl
