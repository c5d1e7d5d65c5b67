-- ===== src/ClientDb/Outbox.antt =====
-- packages/client-db/src/sync/outbox.ts: `OptimisticOutbox`. A delivery goes on in the background after `send` has
-- returned, so that its end is a step of its own; the record that it changes is the object that `send` made.
-- Encryption is a parameter, given as its result.
pub mod Pending
use genchat.Base.{
  ℕ, zero, suc, ◌+◌, String, ◌==◌, ◌≡◌, ◌≢◌, refl, sym, ap, ◌∙◌, subst, ◌⊎◌, inl, inr, Bool, true,
  false, not, Option, none, some, List, [], ◌∷◌, ◌++◌, if◌then◌else◌, nat_eq, filter, length, In,
  In-append_left, In-append_right, In-filter_of, any, arith, Bool-cases, insert,
}
use mathlib.Core.Option.{some-injective, none-ne-some}
use genchat.ClientDb.Database.{
  Message, Status, MessageType, Collection, Database, object, modify, query, create_message,
  final_id,
}

pub record Frame : Type 0 where
  pub channel_id : String
  pub client_msg_id : String
  pub ciphertext_base64 : String
  pub message_type : ℕ

pub record Ack : Type 0 where
  pub client_msg_id : String
  pub sequence_num : ℕ

pub record Outbox : Type 0 where
  pub messages : Collection Message
  -- The records, by their objects, whose acknowledgement is awaited, and the frames given to the transport.
  pub under_way : List ℕ
  pub frames : List Frame

abbrev pub optimistic : String → String → String → String → ℕ → Message
optimistic client_id channel sender text now = record {
  id = client_id;
  channel_id = channel;
  sender_id = sender;
  client_msg_id = client_id;
  sequence_num = none;
  text = text;
  status = Status.pending;
  message_type = MessageType.text_message;
  created_at = now;
}

abbrev pub mark : Status → Message → Message
mark s m = record m { status = s }

abbrev pub mark_sent : ℕ → Message → Message
mark_sent sequence m = record m { status = Status.sent; sequence_num = some sequence }

abbrev pub change : ℕ → (Message → Message) → Outbox → Outbox
change n f o = record o { messages = record o.messages { objects = modify n f o.messages.objects } }

-- `dispatchInBackground` up to its first await, with the message type and the ciphertext, if encryption
-- does not throw.
unfoldable pub dispatch : ℕ → String → String → Option (ℕ × String) → Outbox → Outbox
dispatch n channel client_id none o = change n (mark Status.failed) o
dispatch n channel client_id (some (kind, ciphertext)) o = record o {
  under_way = o.under_way ++ (n ∷ []);
  frames =
      o.frames
      ++ (record {
        channel_id = channel;
        client_msg_id = client_id;
        ciphertext_base64 = ciphertext;
        message_type = kind;
      }
          ∷ []);
}

-- With the client id and the default id that are drawn.
unfoldable pub send :
    String → String → String → String → String → Option (ℕ × String) → ℕ → Outbox → Outbox
send client_id default channel sender text encrypted now o =
    let made = create_message default (optimistic client_id channel sender text now) o.messages in
    dispatch made.1 channel client_id encrypted (record o { messages = made.0 })

abbrev pub awaited : ℕ → Outbox → Bool
awaited n o = any (λ x. nat_eq x n) o.under_way

abbrev pub without : ℕ → List ℕ → List ℕ
without n l = filter (λ x. not (nat_eq x n)) l

-- The delivery of a record ends: with an acknowledgement, or as the transport rejects.
unfoldable pub delivered : ℕ → Ack → Outbox → Outbox
delivered n ack o =
    if awaited n o
    then record (change n (mark_sent ack.sequence_num) o) { under_way = without n o.under_way }
    else o

unfoldable pub refused : ℕ → Outbox → Outbox
refused n o =
    if awaited n o
    then record (change n (mark Status.failed) o) { under_way = without n o.under_way }
    else o

-- The first record with the client id of the acknowledgement.
unfoldable pub reconcile_ack : Ack → Outbox → Outbox
reconcile_ack ack o = elim (query (λ m. m.client_msg_id == ack.client_msg_id) o.messages) [
  | [] ↦ o
  | n ∷ ns ↦ change n (mark_sent ack.sequence_num) o
]

pub data OutboxEvent : Type 0 where
  sends : (client_id default channel sender text : String) → Option (ℕ × String) → ℕ → OutboxEvent
  delivers : ℕ → Ack → OutboxEvent
  refuses : ℕ → OutboxEvent
  reconciles : Ack → OutboxEvent

unfoldable pub outbox_step : OutboxEvent → Outbox → Outbox
outbox_step (sends client_id default channel sender text encrypted now) o =
    send client_id default channel sender text encrypted now o
outbox_step (delivers n ack) o = delivered n ack o
outbox_step (refuses n) o = refused n o
outbox_step (reconciles ack) o = reconcile_ack ack o

unfoldable pub outbox_run : List OutboxEvent → Outbox → Outbox
outbox_run [] o = o
outbox_run (e ∷ es) o = outbox_run es (outbox_step e o)
