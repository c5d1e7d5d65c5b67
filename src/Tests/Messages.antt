-- ===== src/Tests/Messages.antt =====
-- The theorems on messages and media keys, at the sample.
use genchat.Base.{ℕ, ◌≡◌, refl, inl, some, List, [], ◌∷◌, arith, lookup, In}
use genchat.Codec.Hex.{bytes_to_hex, hex_to_bytes-bytes_to_hex}
use genchat.Codec.Decimal.{decimal}
use Prim.Native.String.{◌++◌}
use genchat.Mls.State.{GroupState}
use genchat.Mls.Commit.{resolved, group_commit}
use genchat.Mls.Commit.Advance.{remove_member, advance_epoch_known, advanced}
use genchat.Mls.Commit.Apply.{apply_incoming_commit}
use genchat.Mls.Commit.Converge.{Agree}
use genchat.Mls.Message.{
  EncryptedGroupMessage, plain, app_key, get_epoch_application_key, encrypt_group_message,
  decrypt_group_message, export_group_media_key,
}
use genchat.Mls.Message.Laws.{
  KeyIsCurrent, app_key_stale, decrypt-encrypt, media_keys_after_removal,
}
use genchat.Tests.Sample.{
  sample, sample-Lawful, group, group_of_bob, manager, manager_of_bob, call, same_group,
}
use genchat.Tests.Commits.{known_group, known_group_of_bob, removal, next_bits, next_secret-sample}

abbrev key : List ℕ
key =
    sample.derive_key (7 ∷ []) ("mls_app_salt_" ++ decimal 4)
      ("mls_application_encryption_" ++ ("c" ++ ("_" ++ decimal 4)))

app_key-group : app_key sample group ≡ some key
unfolding app_key
app_key-group = rw (hex_to_bytes-bytes_to_hex 7 [] (omega arith, tt)) refl

uncached : KeyIsCurrent sample group manager
unfolding lookup
uncached = inl refl

uncached_of_bob : KeyIsCurrent sample group_of_bob manager_of_bob
unfolding lookup
uncached_of_bob = inl refl

decrypt-encrypt_example :
    (e : EncryptedGroupMessage) × ((encrypt_group_message sample "c" "ann"
        (1 ∷ [])
        (9 ∷ 8 ∷ [])
        100
        "hi"
        manager).1
      ≡ resolved e)
    × (e.epoch ≡ group.epoch)
    × ((decrypt_group_message sample "c" (some e) manager_of_bob).1 ≡ plain "hi")
decrypt-encrypt_example =
    decrypt-encrypt sample "c" "ann" "hi" (1 ∷ []) 9 (8 ∷ []) 100 key sample-Lawful
      (omega arith, (omega arith, tt)) refl manager manager_of_bob group group_of_bob known_group
      known_group_of_bob same_group refl uncached uncached_of_bob app_key-group

-- A later state of the same epoch with another secret, as `joinGroup` may save it.
abbrev replaced : GroupState
replaced = record group { epoch_secret_hex = bytes_to_hex (9 ∷ []) }

first_key : (get_epoch_application_key sample group manager).1 ≡ some key
unfolding get_epoch_application_key lookup
first_key = rw app_key-group refl

app_key_stale_example :
    (get_epoch_application_key sample replaced (get_epoch_application_key sample group manager).0).1
    ≡ some key
app_key_stale_example = app_key_stale sample group replaced manager key refl refl first_key

agreed : Agree "c" manager manager_of_bob
agreed = record {
  left = group;
  right = group_of_bob;
  known_left = known_group;
  known_right = known_group_of_bob;
  same = same_group;
}

removal_broadcast :
    In (group_commit "c" 5 removal) (remove_member sample "c" "ann" "bob" call manager).effects
unfolding remove_member advanced
removal_broadcast =
    rw
      (advance_epoch_known sample "c" "ann" "bob" call group manager (some next_bits) known_group
        next_secret-sample)
      (inl refl)

media_keys_after_removal_example :
    (export_group_media_key sample "c" "ann"
      (apply_incoming_commit sample "c" (some removal) 5 101 manager_of_bob).0).1
    ≡ (export_group_media_key sample "c" "ann"
        (remove_member sample "c" "ann" "bob" call manager).manager).1
media_keys_after_removal_example =
    media_keys_after_removal sample "c" "ann" "bob" "ann" call manager manager_of_bob 101 group
      group_of_bob 5 removal known_group known_group_of_bob same_group removal_broadcast
