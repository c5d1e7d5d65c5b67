-- ===== src/Tests/Store.antt =====
-- The theorems on the message store, at two messages.
use genchat.Base.{
  All, filter, ◌≡◌, refl, ◌↔◌, true, false, some, none, List, [], ◌∷◌, ◌==◌, In, IsSorted,
}
use genchat.WebStorage.{read}
use genchat.LocalDb.Message.{expired, id_of, StoredMessage, sent, everyone, fresh, named}
use genchat.LocalDb.Storage.{storage_key}
use genchat.LocalDb.Store.{
  purge_expired_messages, LocalDb, completes, older, get_messages_by_channel, mark_message_deleted,
  delete_message,
}
use genchat.LocalDb.Laws.{get_messages_by_channel_correct}
use genchat.LocalDb.Purge.{listed, purge_expired_messages_correct}
use genchat.LocalDb.Erase.{
  messages, IsTombstone, mark_message_deleted_erases, delete_message_erases,
}

abbrev pub hello : StoredMessage
hello = record {
  id = "m1";
  client_msg_id = "k1";
  channel_id = "c";
  sender_id = "ann";
  text = some "hello";
  attachment = none;
  status = sent;
  timestamp = "10:00";
  created_at = 10;
  ephemeral_ttl_sec = none;
  expires_at = none;
  reply_to = none;
  reactions = none;
  is_deleted = false;
  deleted_at = none;
  deleted_by = none;
  delete_scope = none;
  is_edited = false;
  edited_at = none;
  is_pinned = true;
  pinned_at = some 12;
  pinned_by = some "bob";
}

abbrev early : StoredMessage
early = record hello {
  id = "m2";
  client_msg_id = "k2";
  text = some "early";
  created_at = 5;
  expires_at = some 1000;
  is_pinned = false;
  pinned_at = none;
}

abbrev pub table : List StoredMessage
table = hello ∷ early ∷ []

abbrev pub store : LocalDb
store = record {
  db = some table;
  storage = record {
    items = ("genchat_msgs_c", some table) ∷ [];
    available = true;
    accepts = λ _ _ _. true;
  };
}

get_messages_by_channel_correct_example :
    IsSorted older (get_messages_by_channel 100 "c" completes store)
    × ((a : StoredMessage)
        → In a (get_messages_by_channel 100 "c" completes store)
          ↔ (In a table × ((a.channel_id ≡ "c") × (fresh 100 a ≡ true))))
get_messages_by_channel_correct_example = get_messages_by_channel_correct 100 "c" store table refl

mark_message_deleted_erases_example :
    let d' = mark_message_deleted 100 "m1" "c" "ann" everyone completes store in
    (t' : List StoredMessage) × (d'.db ≡ some t')
    × All IsTombstone (filter (λ a. a.id == "m1") t')
    × All IsTombstone (filter (named "m1") (messages (read (storage_key "c") d'.storage)))
mark_message_deleted_erases_example =
    mark_message_deleted_erases "m1" "c" store table refl refl (λ _ _. refl) 100 "ann"

delete_message_erases_example :
    let d' = delete_message "m1" "c" completes store in
    (t' : List StoredMessage) × (d'.db ≡ some t')
    × ((a : StoredMessage) → In a t' ↔ (In a table × ((a.id == "m1") ≡ false)))
    × All (λ a. named "m1" a ≡ false) (messages (read (storage_key "c") d'.storage))
delete_message_erases_example = delete_message_erases "m1" "c" store table refl refl (λ _ _. refl)

purge_expired_messages_correct_example :
    let (d', ids) = purge_expired_messages 2000 completes store in
    (t' : List StoredMessage) × (d'.db ≡ some t')
    × ((a : StoredMessage) → In a t' ↔ (In a table × (expired 2000 a ≡ false)))
    × All (λ a. listed (id_of a) ids ≡ true) (filter (expired 2000) table)
purge_expired_messages_correct_example = purge_expired_messages_correct 2000 store table refl
