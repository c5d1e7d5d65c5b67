-- ===== src/Chat/Messages.antt =====
-- A message of the page, `MessageItem`, and the changes that the page makes to one. A field that is
-- `undefined` is `none`; an absent flag is `false`.
use text.Mathlib.Text.{starts_with}
use genchat.Base.{
  ℕ, ◌*◌, String, ◌==◌, Bool, true, false, not, ◌&&◌, ◌||◌, Option, none, some, List, [], ◌∷◌, ◌++◌,
  any, filter, lookup, insert, remove, nat_eq, leb, if◌then◌else◌,
}
use genchat.LocalDb.Message.{StoredMessage, Status, Scope, QuotedReply, read, everyone}

pub record MessageItem : Type 0 where
  pub id : String
  pub client_msg_id : String
  pub channel_id : String
  pub sender_id : String
  pub text : Option String
  pub raw_ciphertext : Option String
  -- The JSON text of the attachment.
  pub attachment : Option String
  pub status : Status
  pub timestamp : String
  pub is_encrypted : Bool
  pub is_insecure_fallback : Bool
  pub security_warning : Option String
  pub sender_fingerprint : Option String
  pub ephemeral_ttl_sec : Option ℕ
  pub expires_at : Option ℕ
  pub reply_to : Option QuotedReply
  pub reactions : Option (List (String × List String))
  pub is_deleted : Bool
  pub deleted_at : Option ℕ
  pub deleted_by : Option String
  pub delete_scope : Option Scope
  pub is_edited : Bool
  pub edited_at : Option ℕ
  pub is_pinned : Bool
  pub pinned_at : Option ℕ
  pub pinned_by : Option String

-- `{ ...m, createdAt }`, in the fields that the store declares.
unfoldable pub stored : ℕ → MessageItem → StoredMessage
stored created_at m = record {
  id = m.id;
  client_msg_id = m.client_msg_id;
  channel_id = m.channel_id;
  sender_id = m.sender_id;
  text = m.text;
  attachment = m.attachment;
  status = m.status;
  timestamp = m.timestamp;
  created_at = created_at;
  ephemeral_ttl_sec = m.ephemeral_ttl_sec;
  expires_at = m.expires_at;
  reply_to = m.reply_to;
  reactions = m.reactions;
  is_deleted = m.is_deleted;
  deleted_at = m.deleted_at;
  deleted_by = m.deleted_by;
  delete_scope = m.delete_scope;
  is_edited = m.is_edited;
  edited_at = m.edited_at;
  is_pinned = m.is_pinned;
  pinned_at = m.pinned_at;
  pinned_by = m.pinned_by;
}

-- `m.id === id || m.clientMsgId === id`
unfoldable pub named : String → MessageItem → Bool
named id m = (m.id == id) || (m.client_msg_id == id)

-- `m.clientMsgId || m.id`
unfoldable pub key_of : MessageItem → String
key_of m = if m.client_msg_id == "" then m.id else m.client_msg_id

-- `mKey === id || m.id === id`
unfoldable pub keyed : String → MessageItem → Bool
unfolding key_of
keyed id m = (key_of m == id) || (m.id == id)

-- A change of the messages that pass a test.
abbrev pub changed : (MessageItem → Bool) → (MessageItem → MessageItem) → MessageItem → MessageItem
changed test f m = if test m then f m else m

-- A message that was read stays as it is.
unfoldable pub received : Status → MessageItem → MessageItem
received status m = record m { status = elim m.status [ read ↦ read | _ ↦ status ] }

pub data Op : Type 0 where
  add_it remove_it : Op

-- `Set.prototype.add` and `delete`, and `new Set(users)`, in the order of insertion.
unfoldable pub set_add : String → List String → List String
set_add user users = if any (λ u. u == user) users then users else users ++ (user ∷ [])

unfoldable pub set_delete : String → List String → List String
set_delete user users = filter (λ u. not (u == user)) users

unfoldable pub set_of : List String → List String → List String
unfolding set_add
set_of users [] = users
set_of users (u ∷ us) = set_of (set_add u users) us

-- `m.reactions || {}`, and `reactions[emoji] || []` of it.
unfoldable pub given_reactions : MessageItem → List (String × List String)
given_reactions m = elim m.reactions [ none ↦ [] | some r ↦ r ]

unfoldable pub users_of : String → List (String × List String) → List String
users_of emoji reactions = elim (lookup emoji reactions) [ none ↦ [] | some users ↦ users ]

-- `reactions[emoji]?.includes(user)`
unfoldable pub has_reacted : String → String → MessageItem → Bool
unfolding given_reactions users_of
has_reacted emoji user m = any (λ u. u == user) (users_of emoji (given_reactions m))

abbrev pub set_op : Op → String → List String → List String
set_op add_it = set_add
set_op remove_it = set_delete

-- An emoji without users is deleted.
unfoldable pub put_users :
    String → List String → List (String × List String) → List (String × List String)
put_users emoji [] reactions = remove emoji reactions
put_users emoji (u ∷ us) reactions = insert emoji (u ∷ us) reactions

unfoldable pub reacted : String → String → Op → MessageItem → MessageItem
unfolding given_reactions users_of set_of put_users
reacted emoji sender op m =
    let reactions = given_reactions m in
    record m {
      reactions =
          some
            (put_users emoji (set_op op sender (set_of [] (users_of emoji reactions))) reactions);
    }

unfoldable pub revoked : ℕ → String → MessageItem → MessageItem
revoked at by m = record m {
  is_deleted = true;
  deleted_at = some at;
  deleted_by = some by;
  delete_scope = some everyone;
  text = none;
  attachment = none;
  reply_to = none;
  reactions = none;
}

unfoldable pub edited : String → ℕ → MessageItem → MessageItem
edited new_text at m = record m { text = some new_text; is_edited = true; edited_at = some at }

unfoldable pub pinned : Bool → ℕ → String → MessageItem → MessageItem
pinned on at by m = record m {
  is_pinned = on;
  pinned_at = if on then some at else none;
  pinned_by = if on then some by else none;
}

-- A text that could not be decrypted.
abbrev pub masked : String → Bool
masked text = starts_with text "{\"protocol\":\"genchat-" || starts_with text "🔒"

abbrev pub or_else : Option String → Option String → Option String
or_else none other = other
or_else (some text) other = if text == "" then other else some text

-- `isExistingClear`, `isNewMsgMasked` and `finalText`.
abbrev pub is_clear : Option String → Bool
is_clear none = false
is_clear (some text) = not (text == "") && not (masked text)

abbrev pub is_masked : Option String → Bool
is_masked none = false
is_masked (some text) = not (text == "") && masked text

abbrev pub final_text : Option String → Option String → Option String
final_text existing new =
    if is_clear existing && is_masked new then existing else or_else new existing

-- `{ ...m, ...newMsg, ... }`: the fields that `newMsg` is made with replace those of the message.
unfoldable pub merged : MessageItem → MessageItem → MessageItem
merged new m = record m {
  id = new.id;
  client_msg_id = new.client_msg_id;
  channel_id = new.channel_id;
  sender_id = new.sender_id;
  text = final_text m.text new.text;
  raw_ciphertext = or_else new.raw_ciphertext m.raw_ciphertext;
  attachment = new.attachment;
  reply_to = new.reply_to;
  reactions = new.reactions;
  status = elim m.status [ read ↦ read | _ ↦ new.status ];
  timestamp = new.timestamp;
  is_encrypted = new.is_encrypted;
  is_insecure_fallback = new.is_insecure_fallback;
  security_warning = new.security_warning;
  sender_fingerprint = new.sender_fingerprint;
  ephemeral_ttl_sec = new.ephemeral_ttl_sec;
  expires_at = new.expires_at;
}

-- `(newMsg.clientMsgId && m.clientMsgId === newMsg.clientMsgId) || m.id === newMsg.id`
unfoldable pub same_message : MessageItem → MessageItem → Bool
same_message new m =
    (not (new.client_msg_id == "") && (m.client_msg_id == new.client_msg_id)) || (m.id == new.id)

-- `m.expiresAt && m.expiresAt <= now`
unfoldable pub is_expired : ℕ → MessageItem → Bool
is_expired now m = elim m.expires_at [ none ↦ false | some t ↦ not (nat_eq t 0) && leb t now ]

-- `ev.serverTime ? ev.serverTime * 1000 : Date.now()`
unfoldable pub time_of : Option ℕ → ℕ → ℕ
time_of none now = now
time_of (some t) now = if nat_eq t 0 then now else t * 1000
