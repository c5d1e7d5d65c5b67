-- ===== src/LocalCache/Laws.antt =====
-- What is saved through the encrypted cache is loaded from it.
use Prim.Native.String.{◌++◌}
use text.Mathlib.TextPositions.{starts_with-append}
use genchat.Base.{
  ℕ, String, ◌==◌, ◌≡◌, refl, sym, ap, subst, ◌∙◌, inl, inr, true, false, some, List, [], ◌∷◌, map,
  In,
}
use genchat.Mls.Platform.{Platform, Lawful, IsBytes}
use genchat.LocalDb.Message.{StoredMessage, fresh}
use genchat.LocalDb.Store.{LocalDb, completes, resolved, get_messages_by_channel}
use genchat.LocalDb.Store as Store
use genchat.LocalDb.Laws.{save-get}
use genchat.LocalCache.{
  envelope, encrypt_text, decrypt_text, stored_text, loaded_text, save_message, load_messages,
  loaded,
}

In-map : {A B : Type 0} (f : A → B) (a : A) (xs : List A) → In a xs → In (f a) (map f xs)
In-map f a [] i = absurd i
In-map f a (x ∷ xs) (inl e) = inl (ap f e)
In-map f a (x ∷ xs) (inr i) = inr (In-map f a xs i)

module _ (p : Platform) (split_colons : String → List String) (lawful : Lawful p) where
  -- Splitting the envelope of a text at its colons gives its three parts, as base64 has no colon.
  abbrev pub SplitsEnvelope : List ℕ → List ℕ → String → Type 0
  SplitsEnvelope key iv text =
      let c = p.encrypt key iv (p.encode text) in
      split_colons (envelope (p.btoa iv) (p.btoa c)) ≡ "ENC_GCM" ∷ p.btoa iv ∷ p.btoa c ∷ []

  loaded_text-encrypt_text :
      (key iv : List ℕ) (text : String)
      → IsBytes iv
      → p.decode (p.encode text) ≡ text
      → SplitsEnvelope key iv text
      → loaded_text p split_colons (some key) (some (encrypt_text p split_colons key iv text))
        ≡ some text
  unfolding loaded_text encrypt_text decrypt_text
  loaded_text-encrypt_text key iv text b e split =
      let c = p.encrypt key iv (p.encode text) in
      rw
        (
          starts_with-append "ENC_GCM:" (p.btoa iv ++ (":" ++ p.btoa c)),
          split,
          decrypt_text,
          lawful.atob-btoa iv b,
          lawful.atob-btoa c (lawful.encrypt_bytes key iv (p.encode text)),
          lawful.decrypt-encrypt key iv (p.encode text),
          e,
        )
        refl

  -- A message that is saved through the cache, with a text that the decoder gives back from its bytes, is
  -- among the messages that the cache loads of its channel under the same key, as it was, as long as
  -- it has not expired; the platform is lawful, the envelope is split at its colons, and IndexedDB commits.
  pub load-save :
      (key iv : List ℕ) (text : String) (m : StoredMessage) (now later : ℕ) (d : LocalDb)
      (t : List StoredMessage)
      → IsBytes iv
      → m.text ≡ some text
      → (text == "") ≡ false
      → p.decode (p.encode text) ≡ text
      → SplitsEnvelope key iv text
      → fresh later m ≡ true
      → d.db ≡ some t
      → In m (
          load_messages p split_colons later m.channel_id
            (some key)
            completes
            (save_message p split_colons now m (some key) iv completes d).0)
  unfolding load_messages save_message stored_text fresh
  load-save key iv text m now later d t b e f g split h k =
      let kept = record m { text = some (encrypt_text p split_colons key iv text) } in
      let is_there = (save-get kept kept now later m.channel_id d t k).1.1 (inl refl, (refl, h)) in
      let back : loaded p split_colons (some key) kept ≡ m =
        ap (λ x. record m { text = x }) (loaded_text-encrypt_text key iv text b g split ∙ sym e) in
      let stored : stored_text p split_colons (some key) iv m.text ≡ kept.text =
        rw (e, stored_text, f) refl in
      let got =
        get_messages_by_channel later m.channel_id completes
          (Store.save_message now kept completes d).0 in
      let at_end : In m (map (loaded p split_colons (some key)) got) =
        subst (λ x. In x (map (loaded p split_colons (some key)) got)) back
          (In-map (loaded p split_colons (some key)) kept got is_there) in
      subst
        (λ x. In m (
          load_messages p split_colons later m.channel_id (some key) completes
            (Store.save_message now (record m { text = x }) completes d).0))
        (sym stored) at_end
