-- ===== src/LocalDb/Erase.antt =====
-- What a revocation and a deletion leave, in IndexedDB and in the fallback.
use genchat.Base.{
  All, All-of, ℕ, String, ◌≡◌, refl, subst, ◌↔◌, inl, inr, Bool, true, false, none, some, List, [],
  arith, ◌==◌, filter, any, In, of_In-filter,
}
use genchat.WebStorage.{Read, threw, absent, found, read}
use genchat.LocalDb.Message.{StoredMessage, everyone, named, tombstone}
use genchat.LocalDb.Table.{get, delete, update, of_In-delete, In-delete_of}
use genchat.LocalDb.Storage.{storage_key, given, change_storage, without_named, change_named}
use genchat.LocalDb.Store.{LocalDb, completes, change_message, delete_message, mark_message_deleted}
use genchat.LocalDb.Change.{
  of_In-update, find?-missed, AcceptsAll, of_change_keys, after-change_named, after-without_named,
}

-- Nothing of the content of a revoked message is left.
abbrev pub IsTombstone : StoredMessage → Type 0
IsTombstone m =
    (m.is_deleted ≡ true)
    × (m.text ≡ none)
    × (m.attachment ≡ none)
    × (m.reply_to ≡ none)
    × (m.reactions ≡ none)

tombstone-IsTombstone :
    (now : ℕ) (by : String) (m : StoredMessage) → IsTombstone (tombstone now by m)
unfolding tombstone
tombstone-IsTombstone now by m = (refl, refl, refl, refl, refl)

tombstone-id : (now : ℕ) (by : String) (m : StoredMessage) → (tombstone now by m).id ≡ m.id
unfolding tombstone
tombstone-id now by m = refl

-- The messages of a list that was read, if it was.
abbrev pub messages : Read (List StoredMessage) → List StoredMessage
messages (found ms) = ms
messages _ = []

All-messages :
    (P : StoredMessage → Type 0) (r : Read (List StoredMessage))
    → ((ms : List StoredMessage) (a : StoredMessage) → r ≡ found ms → In a ms → P a)
    → All P (messages r)
All-messages P threw h = tt
All-messages P absent h = tt
All-messages P (found ms) h = All-of P ms (λ a i. h ms a refl i)

All-matching :
    (P : StoredMessage → Type 0) (test : StoredMessage → Bool) (ms : List StoredMessage)
    → ((a : StoredMessage) → In a ms → test a ≡ true → P a)
    → All P (filter test ms)
All-matching P test ms h =
    All-of P (filter test ms) (λ a i. let (q, e) = of_In-filter test a ms i in h a q e)

All-matching_messages :
    (P : StoredMessage → Type 0) (test : StoredMessage → Bool) (r : Read (List StoredMessage))
    → ((ms : List StoredMessage) (a : StoredMessage) → r ≡ found ms → In a ms → test a ≡ true → P a)
    → All P (filter test (messages r))
All-matching_messages P test threw h = tt
All-matching_messages P test absent h = tt
All-matching_messages P test (found ms) h = All-matching P test ms (λ a. h ms a refl)

module _ (id channel : String) (d : LocalDb) (t : List StoredMessage) (there : d.db ≡ some t)
    (chosen : given channel ≡ true) (accepts : AcceptsAll d.storage) where
  -- After `markMessageDeleted` for everyone on a named channel, with a transaction that completes and a
  -- storage that accepts every write, each record of IndexedDB with this id is a tombstone, and so
  -- is each message of the channel's fallback with this id as its id or its client id.
  pub mark_message_deleted_erases :
      (now : ℕ) (by : String)
      → let d' = mark_message_deleted now id channel by everyone completes d in
        (t' : List StoredMessage) × (d'.db ≡ some t')
        × All IsTombstone (filter (λ a. a.id == id) t')
        × All IsTombstone (filter (named id) (messages (read (storage_key channel) d'.storage)))
  unfolding mark_message_deleted change_message change_storage
  mark_message_deleted_erases now by = (
    update id (tombstone now by) t,
    rw there refl,
    All-matching IsTombstone (λ a. a.id == id) (update id (tombstone now by) t) in_table,
    All-matching_messages IsTombstone (named id) _ in_storage,
  )
    where
      in_table :
          (a : StoredMessage)
          → In a (update id (tombstone now by) t)
          → (a.id == id) ≡ true
          → IsTombstone a
      in_table a i e =
          elim (of_In-update id (tombstone now by) a t (tombstone-id now by) i)
            as (λ _. IsTombstone a) [
              | inl (m, q) ↦ rw q (tombstone-IsTombstone now by m)
              | inr (_, q) ↦ absurd (ground (arith, e))
            ]

      in_storage :
          (ms : List StoredMessage) (a : StoredMessage)
          → read
              (storage_key channel)
              (change_storage (change_named id (tombstone now by)) channel d.storage)
            ≡ found ms
          → In a ms
          → named id a ≡ true
          → IsTombstone a
      in_storage ms a r i n =
          let (old, q) =
            of_change_keys (change_named id (tombstone now by)) (storage_key channel) d.storage ms
              accepts (rw chosen at r) in
          after-change_named id (tombstone now by) IsTombstone a old (tombstone-IsTombstone now by)
            (subst (In a) q i) n

  -- After `deleteMessage` on a named channel, with a transaction that completes and a storage that
  -- accepts every write, no record of IndexedDB has the id, every other record is still there, and
  -- no message of the channel's fallback has it as its id or its client id.
  pub delete_message_erases :
      let d' = delete_message id channel completes d in
      (t' : List StoredMessage) × (d'.db ≡ some t')
      × ((a : StoredMessage) → In a t' ↔ (In a t × ((a.id == id) ≡ false)))
      × All (λ a. named id a ≡ false) (messages (read (storage_key channel) d'.storage))
  unfolding delete_message change_storage
  delete_message_erases = (
    delete id t,
    rw there refl,
    λ a. (of_In-delete id a t, λ (i, e). In-delete_of id a t i e),
    All-messages (λ a. named id a ≡ false)
        (read (storage_key channel) (delete_message id channel completes d).storage)
        (λ ms a r i.
          let (old, q) =
            of_change_keys (without_named id) (storage_key channel) d.storage ms accepts
              (rw chosen at r) in
          after-without_named id a old (subst (In a) q i)),
  )

-- A revocation by an id that is no record's id leaves every record of IndexedDB as it was.
pub mark_message_deleted_client_id :
    (now : ℕ) (id channel by : String) (d : LocalDb) (t : List StoredMessage)
    → d.db ≡ some t
    → any (λ m. m.id == id) t ≡ false
    → (mark_message_deleted now id channel by everyone completes d).db ≡ some t
unfolding mark_message_deleted change_message update get
mark_message_deleted_client_id now id channel by d t there e =
    rw there (rw (find?-missed (λ m. m.id == id) t e, update, get) refl)
