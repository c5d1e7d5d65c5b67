-- ===== src/Tests/Keys.antt =====
-- The theorems on stored, saved and transferred keys, at concrete inputs.
use genchat.Base.{ℕ, String, ◌≡◌, refl, some, List, [], ◌∷◌, arith}
use genchat.Codec.Hex.{bytes_to_hex, hex_digit}
use genchat.Codec.Pairs.{hex_to_buffer}
use genchat.Mls.Platform.{IsBytes}
use genchat.KeyBackup.{bundle, create_encrypted_backup, restore_encrypted_backup}
use genchat.KeyBackup.Laws.{restore-create}
use genchat.KeyStorage.{Call, stores, loads, wipes, new_storage, run_storage}
use genchat.KeyStorage.Refine.{run_values, run_storage-refines}
use genchat.DeviceLinking.{
  Random, DeviceLinkingInitResult, ApproveRequest, ok, secrets, confirmation_code,
  initiate_device_linking, approve_device_linking, complete_device_linking, combined,
}
use genchat.DeviceLinking.Link.{qr_text}
use genchat.DeviceLinking.Laws.{complete-approve}
use genchat.Tests.Sample.{sample, sample-Lawful}

abbrev vector : List ℕ
vector = 1 ∷ 2 ∷ 3 ∷ 4 ∷ 5 ∷ 6 ∷ 7 ∷ 8 ∷ 9 ∷ 10 ∷ 11 ∷ 12 ∷ []

vector-IsBytes : IsBytes vector
vector-IsBytes = omega arith

abbrev stretched : List ℕ → List ℕ → ℕ → List ℕ
stretched passphrase salt rounds = 5 ∷ []

abbrev text_of : String → String
text_of b = b

restore-create_example :
    restore_encrypted_backup sample stretched text_of some
      (create_encrypted_backup sample stretched text_of some (3 ∷ []) vector "hi" "secret")
      "secret"
    ≡ bundle "hi"
restore-create_example =
    restore-create sample stretched text_of some sample-Lawful (3 ∷ []) vector "hi" "secret"
      (omega arith, tt) vector-IsBytes refl (λ e. cc) refl refl

abbrev calls : List Call
calls =
    stores (4 ∷ []) (1 ∷ []) "identity_keys" "hi"
    ∷ loads (6 ∷ []) "identity_keys"
    ∷ wipes
    ∷ loads (6 ∷ []) "identity_keys"
    ∷ []

run_storage-refines_example : run_storage sample calls new_storage ≡ run_values calls []
run_storage-refines_example =
    run_storage-refines sample sample-Lawful calls (((omega arith, tt), refl), (tt, (tt, (tt, tt))))

abbrev drawn : Random
drawn = record { b0 = 1; b1 = 2; b2 = 3; b3 = 4 }

abbrev scanned : DeviceLinkingInitResult
scanned = record {
  session_id = "s";
  confirmation_code = confirmation_code drawn;
  ephemeral_private_key = 20 ∷ [];
  ephemeral_public_key_hex = bytes_to_hex (20 ∷ []);
  qr_uri = qr_text "s" (bytes_to_hex (20 ∷ [])) (confirmation_code drawn);
}

abbrev sent : ApproveRequest
sent = record {
  session_id = "s";
  new_device_id = "d2";
  encrypted_bundle = sample.btoa (combined sample text_of some (50 ∷ []) vector "hi");
  auth_code = confirmation_code drawn;
}

complete-approve_example :
    complete_device_linking sample text_of some
      (30 ∷ [])
      (bytes_to_hex (20 ∷ []))
      (ok (some sent.encrypted_bundle))
    ≡ secrets "hi"
unfolding initiate_device_linking approve_device_linking hex_to_buffer bytes_to_hex hex_digit
complete-approve_example =
    complete-approve sample text_of some sample-Lawful "s" "d2" drawn (20 ∷ []) (30 ∷ []) vector
      (50 ∷ []) "hi" scanned sent (omega arith, tt) (omega arith, tt) vector-IsBytes refl refl
      (λ e. cc) refl refl refl refl refl
