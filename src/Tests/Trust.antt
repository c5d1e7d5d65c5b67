-- ===== src/Tests/Trust.antt =====
-- The theorems on safety numbers and on the trust store, at concrete inputs.
use Prim.Native.Nat.{Ordering}
use Prim.Native.String.{compare}
use genchat.Base.{◌==◌, ◌≡◌, refl, true, false, not, none, some, [], ◌∷◌, if◌then◌else◌}
use genchat.Codec.Hex.{codes}
use genchat.Safety.Number.{
  Environment, Party, with_keys, text, key_text, compute_safety_number,
  compute_safety_number_symmetric,
}
use genchat.Safety.Trust.{
  TrustStore, TrustRecord, get_trust_record, set_verified, get_trust_record-set_verified,
}

abbrev environment : Environment
environment = record {
  precedes = λ x y. elim (compare x y) [ Ordering.gt ↦ false | _ ↦ true ];
  digest = λ bs. 7 ∷ bs;
  encode = codes;
}

compute_safety_number_symmetric_example :
    compute_safety_number environment (with_keys "ann" (text "0a") "bob" (text "0b"))
    ≡ compute_safety_number environment (with_keys "bob" (text "0b") "ann" (text "0a"))
unfolding key_text
compute_safety_number_symmetric_example =
    compute_safety_number_symmetric environment "ann" "bob" (text "0a") (text "0b") (λ e. cc)
      (λ e f. cc)

abbrev of_ann : Party
of_ann = record { user_id = "ann"; key = "0a" }

abbrev of_bob : Party
of_bob = record { user_id = "bob"; key = "0b" }

abbrev verified_bob : TrustRecord
verified_bob = record {
  peer_id = "bob";
  safety_number = "12345";
  is_verified = true;
  verified_at = some 50;
  has_changed = false;
  previous_safety_number = none;
}

abbrev contacts : TrustStore
contacts = record {
  items = ("genchat_verified_contacts_v1", some (("bob", verified_bob) ∷ [])) ∷ [];
  available = true;
  accepts = λ _ _ _. true;
}

get_trust_record-set_verified_example :
    let s' = set_verified "bob" "12345" 100 contacts in
    let r = get_trust_record "bob" "54321" s' in
    (r.is_verified ≡ ("12345" == "54321"))
    × (r.has_changed ≡ not ("12345" == "54321"))
    × (r.previous_safety_number ≡ (if "12345" == "54321" then none else some "12345"))
    × (get_trust_record "eve" "54321" s' ≡ get_trust_record "eve" "54321" contacts)
get_trust_record-set_verified_example =
    get_trust_record-set_verified contacts refl (λ _. refl) "bob" "12345" "54321" "eve" 100 refl
