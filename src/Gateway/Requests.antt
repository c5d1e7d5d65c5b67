-- ===== src/Gateway/Requests.antt =====
-- packages/client-web/src/lib/gateway-client.ts: the methods that send a frame.
use genchat.Base.{
  ℕ, ◌+◌, String, Bool, Option, none, some, List, [], ◌∷◌, ◌++◌, if◌then◌else◌, nat_eq, insert,
  remove,
}
use genchat.Gateway.Frame.{Value, text, number, boolean, Field, Fields, truthy, or}
use genchat.Gateway.{Gateway, Settlement, open_socket, send_open, timed_out, not_open, not_encoded}

-- `JSON.stringify` leaves out a field without a value.
abbrev optional : String → Field → Fields
optional name none = []
optional name (some v) = (name, v) ∷ []

abbrev action : String → String × Value
action name = ("action", text name)

unfoldable pub send_group_commit : String → ℕ → String → Gateway → Gateway
send_group_commit channel epoch commit = send_open (
    action "group_commit"
    ∷ ("channel_id", text channel)
    ∷ ("epoch", number epoch)
    ∷ ("commit_data", text commit)
    ∷ [])

unfoldable pub fetch_history : String → ℕ → Gateway → Gateway
fetch_history channel limit =
    send_open (action "fetch_history" ∷ ("channel_id", text channel) ∷ ("limit", number limit) ∷ [])

unfoldable pub send_reaction : String → String → String → String → Gateway → Gateway
send_reaction channel target emoji op = send_open (
    action "reaction"
    ∷ ("channel_id", text channel)
    ∷ ("target_id", text target)
    ∷ ("emoji", text emoji)
    ∷ ("op", text op)
    ∷ [])

unfoldable pub send_delete_message : String → String → String → Gateway → Gateway
send_delete_message channel id scope = send_open (
    action "delete_message"
    ∷ ("channel_id", text channel)
    ∷ ("message_id", text id)
    ∷ ("delete_scope", text scope)
    ∷ [])

unfoldable pub send_edit_message : String → String → String → Gateway → Gateway
send_edit_message channel id ciphertext = send_open (
    action "edit_message"
    ∷ ("channel_id", text channel)
    ∷ ("message_id", text id)
    ∷ ("ciphertext_base64", text ciphertext)
    ∷ [])

unfoldable pub send_pin_message : String → String → String → Gateway → Gateway
send_pin_message channel id op = send_open (
    action "pin_message"
    ∷ ("channel_id", text channel)
    ∷ ("message_id", text id)
    ∷ ("op", text op)
    ∷ [])

unfoldable pub send_typing : String → Bool → Gateway → Gateway
send_typing channel is_typing =
    send_open
      (action "typing" ∷ ("channel_id", text channel) ∷ ("is_typing", boolean is_typing) ∷ [])

unfoldable pub send_read_receipt : String → String → ℕ → Gateway → Gateway
send_read_receipt channel id sequence = send_open (
    action "read_receipt"
    ∷ ("channel_id", text channel)
    ∷ ("server_id", text id)
    ∷ ("sequence_num", number sequence)
    ∷ [])

unfoldable pub send_delivery_receipt : String → String → ℕ → Gateway → Gateway
send_delivery_receipt channel id sequence = send_open (
    action "ack_receipt"
    ∷ ("receipt_type", text "delivered")
    ∷ ("channel_id", text channel)
    ∷ ("server_id", text id)
    ∷ ("message_id", text id)
    ∷ ("sequence_num", number sequence)
    ∷ [])

unfoldable pub send_ephemeral_setting : String → ℕ → Gateway → Gateway
send_ephemeral_setting channel seconds = send_open (
    action "ephemeral_setting"
    ∷ ("channel_id", text channel)
    ∷ ("ephemeral_ttl_sec", number seconds)
    ∷ [])

pub record Signal : Type 0 where
  pub signal_type : String
  pub call_id : String
  pub channel_id : Field
  pub target_user_id : Field
  pub call_type : Field
  pub sdp : Field
  pub candidate : Field

unfoldable pub send_call_signal : Signal → Gateway → Gateway
send_call_signal c = send_open (
    action "call_signal"
    ∷ ("signal_type", text c.signal_type)
    ∷ ("call_id", text c.call_id)
    ∷ (optional "channel_id" c.channel_id
        ++ optional "target_user_id" c.target_user_id
        ++ optional "call_type" (or c.call_type (some (text "video")))
        ++ optional "sdp" c.sdp
        ++ optional "candidate" c.candidate))

pub record Outgoing : Type 0 where
  pub channel_id : Field
  pub client_msg_id : String
  pub ciphertext : String
  pub message_type : Field
  pub ephemeral_ttl_sec : Field
  pub reply_to_message_id : Field

abbrev when_truthy : String → Field → Fields
when_truthy name f = if truthy f then optional name f else []

abbrev wire_frame : Outgoing → String → Fields
wire_frame e b64 =
    action "send_message"
    ∷ (optional "channel_id" e.channel_id
        ++ ("client_msg_id", text e.client_msg_id)
          ∷ ("ciphertext_base64", text b64)
          ∷ (optional "message_type" (or e.message_type (some (number 1)))
              ++ when_truthy "ephemeral_ttl_sec" e.ephemeral_ttl_sec
              ++ when_truthy "reply_to_message_id" e.reply_to_message_id))

-- `sendEnvelope`, for an envelope whose client id is drawn if it had none, with the base64 text of its
-- ciphertext. The promise has the number `g.promises`.
unfoldable pub send_envelope : Outgoing → Option String → Gateway → Gateway
send_envelope e b64 g = elim (open_socket g) [
  | none ↦ record g {
    promises = g.promises + 1;
    settled = g.settled ++ ((g.promises, not_open) ∷ []);
  }
  | some s ↦
      let g' = record g {
        promises = g.promises + 1;
        pending_acks = insert e.client_msg_id g.promises g.pending_acks;
      } in
      elim b64 [
        | none ↦ record g' { settled = g.settled ++ ((g.promises, not_encoded) ∷ []) }
        | some b ↦ record g' { sent = g.sent ++ ((s, wire_frame e b) ∷ []) }
      ]
]

abbrev ended : ℕ → List (ℕ × Settlement) → Option Settlement
ended promise [] = none
ended promise ((p, how) ∷ l) = if nat_eq promise p then some how else ended promise l

-- The timeout of a promise: its timer is cleared where an acknowledgement resolves the promise, and
-- rejecting a promise again does nothing.
unfoldable pub ack_timeout : ℕ → String → Gateway → Gateway
ack_timeout promise id g = elim (ended promise g.settled) [
  | none ↦ record g {
    pending_acks = remove id g.pending_acks;
    settled = g.settled ++ ((promise, timed_out) ∷ []);
  }
  | some not_encoded ↦ record g { pending_acks = remove id g.pending_acks }
  | some how ↦ g
]
