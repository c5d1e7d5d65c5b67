-- ===== src/Gateway/Frame.antt =====
-- packages/client-web/src/lib/gateway-client.ts: what a frame of the gateway gives to the handlers
-- (`onmessage`, after the acknowledgement). A frame is what `JSON.parse` gives, of which the code reads
-- fields by name. The conversion `Number` and the decoding of base64 texts are parameters.

use genchat.Base.{
  ℕ, zero, suc, String, ◌==◌, Bool, true, false, not, Option, none, some, List, if◌then◌else◌,
  lookup,
}

pub data Value : Type 0 where
  text : String → Value
  number : ℕ → Value
  boolean : Bool → Value
  null : Value
  -- An object or an array, of which the code reads nothing.
  object : String → Value

-- The fields of an object, each name once.
abbrev pub Fields : Type 0
Fields = List (String × Value)

pub record Raw : Type 0 where
  pub fields : Fields
  -- The field `messages`, where it is an array.
  pub messages : Option (List Fields)

abbrev pub Field : Type 0
Field = Option Value

abbrev pub field : String → Fields → Field
field name r = lookup name r

abbrev pub truthy : Field → Bool
truthy none = false
truthy (some (text t)) = not (t == "")
truthy (some (number zero)) = false
truthy (some (number (suc n))) = true
truthy (some (boolean b)) = b
truthy (some null) = false
truthy (some (object o)) = true

-- `a || b`
abbrev pub or : Field → Field → Field
or a b = if truthy a then a else b

-- `a ?? b`
abbrev pub coalesce : Field → Field → Field
coalesce none b = b
coalesce (some null) b = b
coalesce a b = a

abbrev pub is_text : String → Field → Bool
is_text t (some (text s)) = s == t
is_text t _ = false

-- The field under either of its two names.
abbrev pub either : String → String → Fields → Field
either snake camel r = or (field snake r) (field camel r)

pub record Envelope : Type 0 where
  pub kind : Field
  pub channel_id : Field
  pub sender_id : Field
  pub client_msg_id : Field
  pub sequence_num : Field
  pub message_type : Field
  pub ciphertext : Field
  pub ephemeral_ttl_sec : Field
  pub reply_to_message_id : Field

-- What the handlers of one kind are given.
pub data Given : Type 0 where
  typing : (channel_id user_id : Field) → Bool → Given
  read_receipt : (channel_id user_id server_id sequence_num receipt_type : Field) → Given
  call_signal :
      (signal_type call_id channel_id sender_id target_user_id call_type sdp candidate
        server_time : Field)
      → Given
  ephemeral_setting : (channel_id ephemeral_ttl_sec updated_by updated_at : Field) → Given
  reaction : (channel_id target_id sender_id emoji op server_time : Field) → Given
  message_deleted : (channel_id message_id sender_id delete_scope server_time : Field) → Given
  message_edited : (channel_id message_id sender_id ciphertext server_time : Field) → Given
  message_pinned : (channel_id message_id sender_id op server_time : Field) → Given
  message : Envelope → Given

abbrev word : String → Field
word t = some (text t)

module _ (number_of : Value → Value) (safe_base64_decode : Field → String) (now : ℕ) where
  -- `Number` of a field that is there.
  abbrev numeric : Field → Field
  numeric none = none
  numeric (some v) = some (number_of v)

  -- `x != null ? Number(x) : undefined`
  abbrev pub ttl : Fields → Field
  ttl r = numeric (coalesce (field "ephemeral_ttl_sec" r) none)

  abbrev decoded : Fields → Field
  decoded r = word (safe_base64_decode (field "ciphertext_base64" r))

  abbrev server_time : Fields → Field
  server_time r = or (either "server_time" "serverTime" r) (some (number now))

  abbrev pub typing_event : Fields → Given
  typing_event r = typing (field "channel_id" r) (field "user_id" r) (truthy (field "is_typing" r))

  abbrev pub receipt_event : Fields → Given
  receipt_event r =
      read_receipt (field "channel_id" r) (field "user_id" r) (either "server_id" "message_id" r)
        (coalesce (field "sequence_num" r) (some (number 0)))
        (or (field "receipt_type" r)
          (word (if is_text "read_receipt" (field "type" r) then "read" else "delivered")))

  abbrev pub call_event : Fields → Given
  call_event r =
      call_signal (field "signal_type" r) (field "call_id" r) (field "channel_id" r)
        (field "sender_id" r) (field "target_user_id" r) (or (field "call_type" r) (word "video"))
        (field "sdp" r) (field "candidate" r) (field "server_time" r)

  abbrev pub ephemeral_event : Fields → Given
  ephemeral_event r =
      ephemeral_setting (either "channel_id" "channelId" r)
        (numeric (
          coalesce (field "ephemeral_ttl_sec" r)
            (coalesce (field "ephemeralTtlSec" r) (some (number 0)))))
        (either "updated_by" "updatedBy" r)
        (or (either "updated_at" "updatedAt" r) (some (number now)))

  abbrev pub reaction_event : Fields → Given
  reaction_event r =
      reaction (either "channel_id" "channelId" r) (either "target_id" "targetId" r)
        (either "sender_id" "senderId" r) (field "emoji" r) (or (field "op" r) (word "add"))
        (server_time r)

  abbrev pub delete_event : Fields → Given
  delete_event r =
      message_deleted (either "channel_id" "channelId" r) (either "message_id" "messageId" r)
        (either "sender_id" "senderId" r)
        (or (either "delete_scope" "deleteScope" r) (word "everyone")) (server_time r)

  abbrev pub edit_event : Fields → Given
  edit_event r =
      message_edited (either "channel_id" "channelId" r) (either "message_id" "messageId" r)
        (either "sender_id" "senderId" r) (or (either "ciphertext_base64" "ciphertext" r) (word ""))
        (server_time r)

  abbrev pub pin_event : Fields → Given
  pin_event r =
      message_pinned (either "channel_id" "channelId" r) (either "message_id" "messageId" r)
        (either "sender_id" "senderId" r) (or (field "op" r) (word "pin")) (server_time r)

  abbrev pub commit_envelope : Fields → Envelope
  commit_envelope r = record {
    kind = word "group_commit";
    channel_id = either "channel_id" "channelId" r;
    sender_id = either "sender_id" "senderId" r;
    client_msg_id = none;
    sequence_num = field "epoch" r;
    message_type = none;
    ciphertext = either "commit_data" "commitData" r;
    ephemeral_ttl_sec = none;
    reply_to_message_id = none;
  }

  -- A message of the history of the channel of the frame `r`.
  unfoldable pub history_envelope : Fields → Fields → Envelope
  history_envelope r m = record {
    kind = word "message";
    channel_id = field "channel_id" r;
    sender_id = field "sender_id" m;
    client_msg_id = either "client_msg_id" "server_id" m;
    sequence_num = field "sequence_num" m;
    message_type = none;
    ciphertext = decoded m;
    ephemeral_ttl_sec = ttl m;
    reply_to_message_id = either "reply_to_message_id" "replyToMessageId" m;
  }

  unfoldable pub push_envelope : Fields → Envelope
  push_envelope r = record {
    kind = word "message";
    channel_id = field "channel_id" r;
    sender_id = field "sender_id" r;
    client_msg_id = or (either "client_msg_id" "clientMsgId" r) (field "server_id" r);
    sequence_num = field "server_time" r;
    message_type = field "message_type" r;
    ciphertext = decoded r;
    ephemeral_ttl_sec = ttl r;
    reply_to_message_id = either "reply_to_message_id" "replyToMessageId" r;
  }

  unfoldable pub other_envelope : Fields → Envelope
  other_envelope r = record {
    kind = or (field "type" r) (word "message");
    channel_id = either "channel_id" "channelId" r;
    sender_id = either "sender_id" "senderId" r;
    client_msg_id = or (either "client_msg_id" "clientMsgId" r) (field "server_id" r);
    sequence_num = coalesce (field "sequence_num" r) (field "sequenceNum" r);
    message_type = coalesce (field "message_type" r) (field "messageType" r);
    ciphertext = either "ciphertext_base64" "ciphertext" r;
    ephemeral_ttl_sec = ttl r;
    reply_to_message_id = either "reply_to_message_id" "replyToMessageId" r;
  }
