-- ===== src/Mls/Message/Laws.antt =====
-- What members of one group read of one another, and which media keys they export.
use genchat.Base.{
  ℕ, String, ◌≡◌, refl, sym, ap, ◌∙◌, ◌⊎◌, Option, none, some, List, ◌∷◌, arith, lookup,
  lookup-insert, eq_refl, In,
}
use genchat.Codec.Hex.{hex_to_bytes, bytes_to_hex, hex_to_bytes-bytes_to_hex}
use genchat.Mls.Platform.{Platform, Lawful, IsBytes}
use genchat.Mls.State.{GroupState, Manager, get_local_group_state, group_of, app_key_cache-get}
use genchat.Mls.Commit.{resolved, Call, group_commit, CommitEnvelope}
use genchat.Mls.Commit.Converge.{SameGroup, Agree}
use genchat.Mls.Commit.Converge.{
  advance_epoch-converges, manager-remove_member, remove_member-frame,
}
use genchat.Mls.Commit.Advance.{remove_member}
use genchat.Mls.Commit.Apply.{apply_incoming_commit}
use genchat.Mls.Message.{
  EncryptedGroupMessage, plain, cache_key, app_key, get_epoch_application_key, sealed, unsealed,
  encrypt_group_message, decrypt_group_message, encrypt_from, decrypt_from, media_key, export_known,
  export_from, export_group_media_key,
}

-- The application key that the manager has cached for the state, if it has one, is the state's.
abbrev pub KeyIsCurrent : Platform → GroupState → Manager → Type 0
KeyIsCurrent p st m =
    (lookup (cache_key st) m.app_key_cache ≡ none)
    ⊎ (lookup (cache_key st) m.app_key_cache ≡ app_key p st)

module _ (p : Platform) where
  key_of_current :
      (st : GroupState) (m : Manager)
      → KeyIsCurrent p st m
      → (get_epoch_application_key p st m).1 ≡ app_key p st
  unfolding get_epoch_application_key
  key_of_current st m h = ground arith

  app_key-same :
      (a b : GroupState) → SameGroup a b → a.group_id ≡ b.group_id → app_key p b ≡ app_key p a
  unfolding app_key
  app_key-same a b same id = rw (same.epoch, same.secret, id)

  -- The key that an epoch's state had when it was first used stays in use for every later state of the
  -- same group and epoch, whatever the secret of that state is.
  pub app_key_stale :
      (st later : GroupState) (m : Manager) (k : List ℕ)
      → later.group_id ≡ st.group_id
      → later.epoch ≡ st.epoch
      → (get_epoch_application_key p st m).1 ≡ some k
      → (get_epoch_application_key p later (get_epoch_application_key p st m).0).1 ≡ some k
  unfolding get_epoch_application_key cache_key
  app_key_stale st later m k id epoch h =
      ground (
        arith,
        lookup-insert (cache_key st) (cache_key st) k m.app_key_cache,
        eq_refl (cache_key st),
      )

  module _ (channel sender text : String) (random : List ℕ) (i : ℕ) (iv : List ℕ) (now : ℕ)
      (key : List ℕ) (lawful : Lawful p) (iv_bytes : IsBytes (i ∷ iv))
      (text_decodes : p.decode (p.encode text) ≡ text) where
    envelope : GroupState → EncryptedGroupMessage
    envelope st = record {
      protocol = "genchat-mls-v1";
      group_id = channel;
      epoch = st.epoch;
      sender_id = sender;
      iv_hex = bytes_to_hex (i ∷ iv);
      ciphertext_base64 = p.btoa (p.encrypt key (i ∷ iv) (p.encode text));
    }

    sealed_with :
        (st : GroupState) (r : Manager × Option (List ℕ))
        → r.1 ≡ some key
        → (sealed p channel sender (i ∷ iv) text st r).1 ≡ resolved (envelope st)
    unfolding envelope
    sealed_with st (m, none) h = cc
    sealed_with st (m, some k) h = let q : k ≡ key = cc in rw q refl

    unsealed_with :
        (st : GroupState) (r : Manager × Option (List ℕ))
        → r.1 ≡ some key
        → (unsealed p (envelope st) r).1 ≡ plain text
    unfolding envelope
    unsealed_with st (m, none) h = cc
    unsealed_with st (m, some k) h =
        let q : k ≡ key = cc in
        rw (
          q,
          hex_to_bytes-bytes_to_hex i iv iv_bytes,
          lawful.atob-btoa (p.encrypt key (i ∷ iv) (p.encode text))
              (lawful.encrypt_bytes key (i ∷ iv) (p.encode text)),
          lawful.decrypt-encrypt key (i ∷ iv) (p.encode text),
          text_decodes,
        )

    encrypt_from_known :
        (st : GroupState) (r : Manager × Option GroupState)
        → r.1 ≡ some st
        → (get_epoch_application_key p st r.0).1 ≡ some key
        → (encrypt_from p channel sender random (i ∷ iv) now text r).1 ≡ resolved (envelope st)
    encrypt_from_known st (m, none) h k = cc
    encrypt_from_known st (m, some s) h k =
        let q : s ≡ st = cc in rw q (sealed_with st (get_epoch_application_key p st m) k)

    decrypt_from_known :
        (st sender_st : GroupState) (r : Manager × Option GroupState)
        → r.1 ≡ some st
        → (get_epoch_application_key p st r.0).1 ≡ some key
        → (decrypt_from p (envelope sender_st) r).1 ≡ plain text
    decrypt_from_known st sender_st (m, none) h k = cc
    decrypt_from_known st sender_st (m, some s) h k =
        let q : s ≡ st = cc in rw q (unsealed_with sender_st (get_epoch_application_key p st m) k)

    -- Where two members hold the same of a group, whose secret gives an application key, and neither has
    -- another key cached for its epoch, a text that the decoder gives back from its bytes and that
    -- the one encrypts, under any vector that is not empty, is read by the other as it was. The
    -- platform's operations are assumed to be lawful.
    pub decrypt-encrypt :
        (m n : Manager) (a b : GroupState)
        → group_of channel m ≡ some a
        → group_of channel n ≡ some b
        → SameGroup a b
        → a.group_id ≡ b.group_id
        → KeyIsCurrent p a m
        → KeyIsCurrent p b n
        → app_key p a ≡ some key
        → (e : EncryptedGroupMessage) × ((encrypt_group_message p channel sender random
              (i ∷ iv)
              now
              text
              m).1
            ≡ resolved e)
          × (e.epoch ≡ a.epoch)
          × ((decrypt_group_message p channel (some e) n).1 ≡ plain text)
    unfolding encrypt_group_message decrypt_group_message envelope
    decrypt-encrypt m n a b known_m known_n same id current_m current_n k = (
      envelope a,
      encrypt_from_known a (get_local_group_state channel m) known_m
          (key_of_current a _ (rw (app_key_cache-get channel m) current_m) ∙ k),
      refl,
      decrypt_from_known b a (get_local_group_state channel n) known_n (
          key_of_current b _ (rw (app_key_cache-get channel n) current_n)
          ∙ app_key-same a b same id
          ∙ k),
    )

  export_from_known :
      (group participant : String) (st : GroupState) (r : Manager × Option GroupState)
      → r.1 ≡ some st
      → (export_from p group participant r).1
        ≡ export_known p group participant st (hex_to_bytes st.epoch_secret_hex)
  export_from_known group participant st (m, none) h = cc
  export_from_known group participant st (m, some s) h = let q : s ≡ st = cc in rw q refl

  export_known-same :
      (group participant : String) (a b : GroupState) (o : Option (List ℕ))
      → a.epoch ≡ b.epoch
      → export_known p group participant a o ≡ export_known p group participant b o
  unfolding media_key
  export_known-same group participant a b none e = refl
  export_known-same group participant a b (some secret) e = rw e

  -- Members that hold the same of a group export the same media key and salt for each participant.
  export-Agree :
      (group participant : String) (m n : Manager)
      → Agree group m n
      → (export_group_media_key p group participant m).1
        ≡ (export_group_media_key p group participant n).1
  unfolding export_group_media_key
  export-Agree group participant m n h =
      export_from_known group participant h.left (get_local_group_state group m) h.known_left
      ∙ export_known-same group participant h.left h.right _ h.same.epoch
      ∙ ap (λ s. export_known p group participant h.right (hex_to_bytes s)) h.same.secret
      ∙ sym (
          export_from_known group participant h.right (get_local_group_state group n) h.known_right)

  -- After a member is removed, everyone who takes the commit frame that was broadcast, the removed user
  -- too, exports the media keys of the new epoch, for each participant, that the committer exports.
  pub media_keys_after_removal :
      (channel committer removed participant : String) (c : Call) (m n : Manager) (now : ℕ)
      (a b : GroupState) (epoch : ℕ) (commit : CommitEnvelope)
      → group_of channel m ≡ some a
      → group_of channel n ≡ some b
      → SameGroup a b
      → In
          (group_commit channel epoch commit)
          (remove_member p channel committer removed c m).effects
      → (export_group_media_key p channel participant
          (apply_incoming_commit p channel (some commit) epoch now n).0).1
        ≡ (export_group_media_key p channel participant
            (remove_member p channel committer removed c m).manager).1
  media_keys_after_removal channel committer removed participant c m n now a b epoch commit known_m
        known_n same h =
      sym (
        ap (λ r. (export_group_media_key p channel participant r).1)
          (manager-remove_member p channel committer removed c m)
        ∙ export-Agree channel participant _ _
            (advance_epoch-converges p channel committer removed c m n now a b known_m known_n same
              epoch commit (remove_member-frame p channel committer removed c m epoch commit h)).1)
