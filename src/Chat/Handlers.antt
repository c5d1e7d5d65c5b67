-- ===== src/Chat/Handlers.antt =====
-- The handlers of the page: each sets the messages that are shown and writes to the store. There are a user and an
-- active channel, without which the handlers of the user return at once. The clock, the end of a
-- transaction, the trimmed text of an edit and the text that an edit of a peer decrypts to are arguments.
use genchat.Base.{
  ℕ, String, ◌==◌, Bool, not, ◌&&◌, ◌||◌, Option, none, some, List, [], ◌∷◌, ◌++◌, any, filter, map,
  if◌then◌else◌,
}
use genchat.LocalDb.Message.{Status, Scope, everyone, me, delivered, read, sent}
use genchat.LocalDb.Store.{
  LocalDb, Tx, save_message, update_message_status, mark_message_deleted, delete_message,
  update_message_text, update_message_pinned, purge_expired_messages,
}
use genchat.Chat.Messages.{
  MessageItem, stored, named, key_of, keyed, changed, received, Op, add_it, remove_it, has_reacted,
  reacted, revoked, edited, pinned, merged, same_message, time_of, is_expired,
}

pub record Chat : Type 0 where
  pub messages : List MessageItem
  pub local_db : LocalDb

abbrev pub receipt_status : String → Status
receipt_status receipt_type = if receipt_type == "delivered" then delivered else read

unfoldable pub on_read_receipt : String → String → Tx → Chat → Chat
on_read_receipt server_id receipt_type tx c =
    let status = receipt_status receipt_type in
    record {
      messages = map (changed (named server_id) (received status)) c.messages;
      local_db = (update_message_status server_id status tx c.local_db).0;
    }

-- The writes that the update of the messages makes, one for each message that it changes.
abbrev pub save_items : ℕ → Tx → List MessageItem → LocalDb → LocalDb
save_items now tx [] d = d
save_items now tx (m ∷ ms) d = save_items now tx ms (save_message now (stored now m) tx d).0

unfoldable pub on_reaction : ℕ → Tx → String → String → String → Op → Chat → Chat
on_reaction now tx target_id emoji sender op c = record {
  messages = map (changed (named target_id) (reacted emoji sender op)) c.messages;
  local_db =
      save_items now tx (map (reacted emoji sender op) (filter (named target_id) c.messages))
        c.local_db;
}

-- With the operation that is sent.
unfoldable pub toggle_reaction : ℕ → Tx → String → MessageItem → String → Chat → Chat × Op
unfolding on_reaction has_reacted
toggle_reaction now tx user target emoji c =
    let target_id = if target.id == "" then target.client_msg_id else target.id in
    let op = if has_reacted emoji user target then remove_it else add_it in
    (on_reaction now tx target_id emoji user op c, op)

unfoldable pub on_delete_message :
    ℕ → Tx → String → String → String → Option ℕ → Scope → Chat → Chat
on_delete_message now tx message_id channel sender server_time me c = c
on_delete_message now tx message_id channel sender server_time everyone c = record {
  messages = map (changed (keyed message_id) (revoked (time_of server_time now) sender)) c.messages;
  local_db = mark_message_deleted now message_id channel sender everyone tx c.local_db;
}

-- `(m.clientMsgId && m.clientMsgId === msgKey) || m.id === msgKey`
abbrev pub targeted : String → MessageItem → Bool
targeted key m = (not (m.client_msg_id == "") && (m.client_msg_id == key)) || (m.id == key)

unfoldable pub confirm_delete : ℕ → Tx → String → String → MessageItem → Scope → Chat → Chat
confirm_delete now tx user channel target everyone c = record {
  messages = map (changed (targeted (key_of target)) (revoked now user)) c.messages;
  local_db = mark_message_deleted now (key_of target) channel user everyone tx c.local_db;
}
confirm_delete now tx user channel target me c = record {
  messages = filter (λ m. not (targeted (key_of target) m)) c.messages;
  local_db = delete_message (key_of target) channel tx c.local_db;
}

unfoldable pub on_edit_message : ℕ → Tx → String → String → String → Option ℕ → Chat → Chat
on_edit_message now tx message_id channel plaintext server_time c =
    let at = time_of server_time now in
    record {
      messages = map (changed (keyed message_id) (edited plaintext at)) c.messages;
      local_db = update_message_text message_id channel plaintext at tx c.local_db;
    }

-- `handleSendMessage` where a message is edited; an empty text changes nothing.
unfoldable pub edit_message : ℕ → Tx → String → MessageItem → String → Chat → Chat
edit_message now tx channel target new_text c =
    let key = key_of target in
    if new_text == "" then c else record {
      messages = map (changed (λ m. key_of m == key) (edited new_text now)) c.messages;
      local_db = update_message_text key channel new_text now tx c.local_db;
    }

unfoldable pub on_pin_message : ℕ → Tx → String → String → String → String → Option ℕ → Chat → Chat
on_pin_message now tx message_id channel sender op server_time c =
    let at = time_of server_time now in
    record {
      messages = map (changed (keyed message_id) (pinned (op == "pin") at sender)) c.messages;
      local_db =
          update_message_pinned now message_id channel (op == "pin") (some sender) (some at) tx
            c.local_db;
    }

unfoldable pub toggle_pin : ℕ → Tx → String → String → MessageItem → Chat → Chat
toggle_pin now tx user channel target c =
    let key = key_of target in
    let on = not target.is_pinned in
    record {
      messages = map (changed (λ m. key_of m == key) (pinned on now user)) c.messages;
      local_db =
          update_message_pinned now key channel on (if on then some user else none)
            (if on then some now else none) tx c.local_db;
    }

-- A message that came, merged with those that are shown; the encrypted cache writes it on its own.
unfoldable pub receive : MessageItem → Chat → Chat
receive new c = record c {
  messages =
      if any (same_message new) c.messages
      then map (changed (same_message new) (merged new)) c.messages
      else c.messages ++ (new ∷ []);
}

-- `handleSendMessage` and `handleSendVoiceNote`: the message that is sent is shown and stored at once, as pending.
unfoldable pub send_message : ℕ → Tx → MessageItem → Chat → Chat
send_message now tx m c = record {
  messages = c.messages ++ (m ∷ []);
  local_db = (save_message now (stored now m) tx c.local_db).0;
}

-- When the frame was sent, or 300 ms after it could not be: whatever the status was, it is `sent`.
unfoldable pub message_sent : String → Tx → Chat → Chat
message_sent client_msg_id tx c = record {
  messages =
      map (changed (λ m. m.client_msg_id == client_msg_id) (λ m. record m { status = sent }))
        c.messages;
  local_db = (update_message_status client_msg_id sent tx c.local_db).0;
}

-- Each second, what has expired is removed from the messages that are shown and from the store.
unfoldable pub purge : ℕ → Tx → Chat → Chat
purge now tx c = record {
  messages =
      if any (is_expired now) c.messages
      then filter (λ m. not (is_expired now m)) c.messages
      else c.messages;
  local_db = (purge_expired_messages now tx c.local_db).0;
}
