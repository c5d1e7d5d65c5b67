-- ===== src/LocalDb/Store.antt =====
-- The operations of `LocalStorageDb`. The clock, and the end of an IndexedDB transaction, are arguments.
use genchat.Base.{
  ℕ, String, ◌==◌, Bool, not, ◌&&◌, Option, none, some, List, [], ◌∷◌, if◌then◌else◌, leb, filter,
  sort_by, map, ◌++◌, any,
}
use genchat.WebStorage.{threw, absent, found, read, write}
use genchat.LocalDb.Message.{
  StoredMessage, Status, Scope, everyone, me, fresh, expired, id_of, tombstone, edited, pinned,
  pin_time,
}
use genchat.LocalDb.Table.{put, delete, update}
use genchat.LocalDb.Storage.{
  Storage, is_message_key, get_local_storage_messages, save_to_storage, change_storage,
  without_named, change_named,
}

-- A transaction is committed, ends with an error event, or cannot be opened: `transaction` throws.
pub data Tx : Type 0 where
  completes fails throws : Tx

-- `db` is `none` where `initIndexedDb` gives null.
pub record LocalDb : Type 0 where
  pub db : Option (List StoredMessage)
  pub storage : Storage

-- The end of an async method that returns nothing.
pub data Settled : Type 0 where
  resolved rejected : Settled

abbrev pub committed :
    (List StoredMessage → List StoredMessage) → Tx → List StoredMessage → List StoredMessage
committed f completes t = f t
committed f _ t = t

abbrev settled : Tx → Settled
settled completes = resolved
settled _ = rejected

-- Where IndexedDB is there, a change of the table that reports its errors.
abbrev reported :
    (List StoredMessage → List StoredMessage)
    → Tx
    → List StoredMessage
    → LocalDb
    → LocalDb × Settled
reported f tx t d = (record d { db = some (committed f tx t) }, settled tx)

-- A change of the table whose errors are swallowed.
abbrev quietly :
    (List StoredMessage → List StoredMessage)
    → Tx
    → Option (List StoredMessage)
    → Option (List StoredMessage)
quietly f tx none = none
quietly f tx (some t) = some (committed f tx t)

unfoldable pub save_message : ℕ → StoredMessage → Tx → LocalDb → LocalDb × Settled
save_message now m tx d = elim d.db [
  | some t ↦ reported (put m) tx t d
  | none ↦ (record d { storage = save_to_storage now m d.storage }, resolved)
]

abbrev pub put_all : List StoredMessage → List StoredMessage → List StoredMessage
put_all [] t = t
put_all (m ∷ ms) t = put_all ms (put m t)

abbrev save_each : ℕ → List StoredMessage → Storage → Storage
save_each now [] s = s
save_each now (m ∷ ms) s = save_each now ms (save_to_storage now m s)

-- An empty list opens no transaction, and the loop after it does nothing.
unfoldable pub save_messages : ℕ → List StoredMessage → Tx → LocalDb → LocalDb × Settled
save_messages now [] tx d = (d, resolved)
save_messages now ms tx d = elim d.db [
  | some t ↦ reported (put_all ms) tx t d
  | none ↦ (record d { storage = save_each now ms d.storage }, resolved)
]

abbrev pub older : StoredMessage → StoredMessage → Bool
older a b = leb a.created_at b.created_at

-- `index.getAll(channelId)`, without the expired ones, the oldest first.
abbrev pub valid_messages : ℕ → String → List StoredMessage → List StoredMessage
valid_messages now channel t =
    sort_by older (filter (fresh now) (filter (λ m. m.channel_id == channel) t))

unfoldable pub get_messages_by_channel : ℕ → String → Tx → LocalDb → List StoredMessage
get_messages_by_channel now channel tx d =
    let fallback = get_local_storage_messages now channel d.storage in
    elim d.db [
      | some t ↦ elim tx [ completes ↦ valid_messages now channel t | _ ↦ fallback ]
      | none ↦ fallback
    ]

unfoldable pub delete_message : String → String → Tx → LocalDb → LocalDb
delete_message id channel tx d = record {
  db = quietly (delete id) tx d.db;
  storage = change_storage (without_named id) channel d.storage;
}

-- The shape of the next three: the record under the id, then the fallback.
unfoldable pub change_message :
    String → String → (StoredMessage → StoredMessage) → Tx → LocalDb → LocalDb
change_message id channel f tx d = record {
  db = quietly (update id f) tx d.db;
  storage = change_storage (change_named id f) channel d.storage;
}

unfoldable pub mark_message_deleted : ℕ → String → String → String → Scope → Tx → LocalDb → LocalDb
unfolding change_message delete_message
mark_message_deleted now id channel deleted_by me tx d = delete_message id channel tx d
mark_message_deleted now id channel deleted_by everyone tx d =
    change_message id channel (tombstone now deleted_by) tx d

unfoldable pub update_message_text : String → String → String → ℕ → Tx → LocalDb → LocalDb
unfolding change_message
update_message_text id channel new_text edited_at tx d =
    change_message id channel (edited new_text edited_at) tx d

unfoldable pub update_message_pinned :
    ℕ → String → String → Bool → Option String → Option ℕ → Tx → LocalDb → LocalDb
unfolding change_message
update_message_pinned now id channel on by at tx d =
    change_message id channel (pinned on by (pin_time at now)) tx d

-- `m.pinnedAt || 0`
abbrev pub pin_rank : StoredMessage → ℕ
pin_rank m = elim m.pinned_at [ none ↦ 0 | some t ↦ t ]

abbrev pub pinned_later : StoredMessage → StoredMessage → Bool
pinned_later a b = leb (pin_rank b) (pin_rank a)

abbrev pub shows_pin : StoredMessage → Bool
shows_pin m = m.is_pinned && not m.is_deleted

unfoldable pub get_pinned_messages : ℕ → String → Tx → LocalDb → List StoredMessage
unfolding get_messages_by_channel
get_pinned_messages now channel tx d =
    sort_by pinned_later (filter shows_pin (get_messages_by_channel now channel tx d))

-- The ids that the callback of `filter` adds, each once.
abbrev pub collect : ℕ → List StoredMessage → List String → List String
collect now [] ids = ids
collect now (m ∷ ms) ids =
    let seen = any (λ i. i == id_of m) ids in
    collect now ms (if expired now m && not seen then ids ++ (id_of m ∷ []) else ids)

-- The loop over the keys of `localStorage`; an exception ends it, and the ids stay.
unfoldable pub purge_keys : ℕ → List String → List String → Storage → List String × Storage
purge_keys now [] ids s = (ids, s)
purge_keys now (k ∷ ks) ids s = elim (read k s) [
  | threw ↦ (ids, s)
  | absent ↦ purge_keys now ks ids s
  | found ms ↦
      if any (expired now) ms
      then elim (write k (filter (λ m. not (expired now m)) ms) s) [
        | none ↦ (collect now ms ids, s)
        | some s' ↦ purge_keys now ks (collect now ms ids) s'
      ]
      else purge_keys now ks ids s
]

abbrev pub purged_ids : ℕ → Tx → Option (List StoredMessage) → List String
purged_ids now completes (some t) = map id_of (filter (expired now) t)
purged_ids now _ _ = []

-- The error event is that of the cursor's opening, before any record is seen.
unfoldable pub purge_expired_messages : ℕ → Tx → LocalDb → LocalDb × List String
unfolding purge_keys
purge_expired_messages now tx d =
    let r =
      purge_keys now (filter is_message_key (map (λ e. e.0) d.storage.items))
        (purged_ids now tx d.db) d.storage in
    (record { db = quietly (filter (λ m. not (expired now m))) tx d.db; storage = r.1 }, r.0)

-- Only IndexedDB is written; an opening that throws rejects, a later error is not awaited.
unfoldable pub update_message_status : String → Status → Tx → LocalDb → LocalDb × Settled
update_message_status id status tx d = elim d.db [
  | none ↦ (d, resolved)
  | some t ↦ (
    record d { db = some (committed (update id (λ m. record m { status = status })) tx t) },
    elim tx [ throws ↦ rejected | _ ↦ resolved ],
  )
]
