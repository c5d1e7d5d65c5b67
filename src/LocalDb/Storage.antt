-- ===== src/LocalDb/Storage.antt =====
-- The fallback in `localStorage`: one list of messages for each channel, under `genchat_msgs_` and the
-- channel. Entries under other keys that other parts of the client keep are not in the storage here.
use Prim.Native.String.{◌++◌, slice}
use genchat.Base.{
  ℕ, String, Bool, ◌||◌, ◌&&◌, not, Option, none, some, List, [], ◌∷◌, ◌==◌, if◌then◌else◌, map,
  filter, any,
}
use genchat.WebStorage.{WebStorage, threw, absent, found, read, write, try_write}
use genchat.LocalDb.Message.{StoredMessage, fresh, named}

abbrev pub storage_key : String → String
storage_key channel = "genchat_msgs_" ++ channel

-- `key.startsWith('genchat_msgs_')`
abbrev pub is_message_key : String → Bool
is_message_key key = slice key 0 13 == "genchat_msgs_"

abbrev pub given : String → Bool
given channel = not (channel == "")

abbrev pub Storage : Type 0
Storage = WebStorage (List StoredMessage)

unfoldable pub get_local_storage_messages : ℕ → String → Storage → List StoredMessage
get_local_storage_messages now channel s =
    if given channel
    then elim (read (storage_key channel) s) [ found ms ↦ filter (fresh now) ms | _ ↦ [] ]
    else []

-- `findIndex`, then the message in that place or at the end.
abbrev pub upsert : StoredMessage → List StoredMessage → List StoredMessage
upsert m [] = m ∷ []
upsert m (x ∷ xs) =
    if (x.id == m.id) || (given m.client_msg_id && (x.client_msg_id == m.client_msg_id))
    then m ∷ xs
    else x ∷ upsert m xs

unfoldable pub save_to_storage : ℕ → StoredMessage → Storage → Storage
unfolding get_local_storage_messages
save_to_storage now m s =
    try_write (storage_key m.channel_id) (upsert m (get_local_storage_messages now m.channel_id s))
      s

-- The list under one key, changed; `none` from the change is a list left as it is, and `none` here an
-- exception.
unfoldable pub change_key :
    (List StoredMessage → Option (List StoredMessage)) → String → Storage → Option Storage
change_key f key s = elim (read key s) [
  | threw ↦ none
  | absent ↦ some s
  | found ms ↦ elim (f ms) [ none ↦ some s | some ms' ↦ write key ms' s ]
]

-- One key after another; an exception ends the loop.
unfoldable pub change_keys :
    (List StoredMessage → Option (List StoredMessage)) → List String → Storage → Storage
unfolding change_key
change_keys f [] s = s
change_keys f (k ∷ ks) s = elim (change_key f k s) [ none ↦ s | some s' ↦ change_keys f ks s' ]

-- The list of the channel, or those of all channels when none is given.
unfoldable pub change_storage :
    (List StoredMessage → Option (List StoredMessage)) → String → Storage → Storage
unfolding change_keys
change_storage f channel s =
    if given channel
    then change_keys f (storage_key channel ∷ []) s
    else change_keys f (filter is_message_key (map (λ e. e.0) s.items)) s

-- The messages that the id names, left out; `none` when there are none of them.
unfoldable pub without_named : String → List StoredMessage → Option (List StoredMessage)
without_named id ms = if any (named id) ms then some (filter (λ m. not (named id m)) ms) else none

-- The messages that the id names, changed; `none` when there are none of them.
unfoldable pub change_named :
    String → (StoredMessage → StoredMessage) → List StoredMessage → Option (List StoredMessage)
change_named id f ms =
    if any (named id) ms then some (map (λ m. if named id m then f m else m) ms) else none
