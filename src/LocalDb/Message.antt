-- ===== src/LocalDb/Message.antt =====
-- The stored message, and the changes that the operations make to one. A field that is `undefined` is
-- `none`; an absent flag is `false`.
use genchat.Base.{
  ℕ, String, Bool, true, false, not, ◌&&◌, ◌||◌, Option, none, some, List, ◌==◌, ltb, leb, nat_eq,
  if◌then◌else◌,
}

pub data Status : Type 0 where
  pending sent delivered read : Status

pub data Scope : Type 0 where
  everyone me : Scope

pub record QuotedReply : Type 0 where
  pub message_id : String
  pub sender_id : String
  pub sender_name : Option String
  pub snippet : String

pub record StoredMessage : Type 0 where
  pub id : String
  pub client_msg_id : String
  pub channel_id : String
  pub sender_id : String
  pub text : Option String
  -- The JSON text of the attachment, whose type is `any`.
  pub attachment : Option String
  pub status : Status
  pub timestamp : String
  pub created_at : ℕ
  pub ephemeral_ttl_sec : Option ℕ
  pub expires_at : Option ℕ
  pub reply_to : Option QuotedReply
  pub reactions : Option (List (String × List String))
  pub is_deleted : Bool
  pub deleted_at : Option ℕ
  pub deleted_by : Option String
  pub delete_scope : Option Scope
  pub is_edited : Bool
  pub edited_at : Option ℕ
  pub is_pinned : Bool
  pub pinned_at : Option ℕ
  pub pinned_by : Option String

-- `m.expiresAt && m.expiresAt <= now`: a time of 0 is no time.
unfoldable pub expired : ℕ → StoredMessage → Bool
expired now m = elim m.expires_at [ none ↦ false | some t ↦ not (nat_eq t 0) && leb t now ]

-- `!m.expiresAt || m.expiresAt > now`
unfoldable pub fresh : ℕ → StoredMessage → Bool
fresh now m = elim m.expires_at [ none ↦ true | some t ↦ nat_eq t 0 || ltb now t ]

-- `m.id === id || m.clientMsgId === id`
unfoldable pub named : String → StoredMessage → Bool
named id m = (m.id == id) || (m.client_msg_id == id)

-- `m.id || m.clientMsgId`
unfoldable pub id_of : StoredMessage → String
id_of m = if m.id == "" then m.client_msg_id else m.id

-- What a revocation for everyone leaves.
unfoldable pub tombstone : ℕ → String → StoredMessage → StoredMessage
tombstone now deleted_by m = record m {
  is_deleted = true;
  deleted_at = some now;
  deleted_by = some deleted_by;
  delete_scope = some everyone;
  text = none;
  attachment = none;
  reply_to = none;
  reactions = none;
}

unfoldable pub edited : String → ℕ → StoredMessage → StoredMessage
edited new_text at m = record m { text = some new_text; is_edited = true; edited_at = some at }

-- `pinnedAt || Date.now()`
unfoldable pub pin_time : Option ℕ → ℕ → ℕ
pin_time none now = now
pin_time (some t) now = if nat_eq t 0 then now else t

unfoldable pub pinned : Bool → Option String → ℕ → StoredMessage → StoredMessage
pinned on by at m = record m {
  is_pinned = on;
  pinned_at = if on then some at else none;
  pinned_by = if on then by else none;
}
