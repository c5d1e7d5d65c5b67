-- ===== src/Tests/Outbox.antt =====
-- The theorem on the outbox, at a run.
use genchat.Base.{refl, none, some, List, [], ◌∷◌, In, insert}
use genchat.ClientDb.Database.{Message, Status, MessageType, create_message}
use genchat.ClientDb.Outbox.{
  Outbox, OutboxEvent, sends, delivers, outbox_step, outbox_run, send, dispatch, delivered,
}
use genchat.ClientDb.Outbox.Pending.{outbox_run-pending}

abbrev empty_outbox : Outbox
empty_outbox = record {
  messages = record { objects = []; items = [] };
  under_way = [];
  frames = [];
}

abbrev sendings : List OutboxEvent
sendings =
    sends "k1" "d1" "c" "ann" "one" (some (1, "AA")) 5
    ∷ sends "k2" "d2" "c" "ann" "two" none 6
    ∷ sends "k3" "d3" "c" "ann" "three" (some (1, "BB")) 7
    ∷ delivers 0 (record { client_msg_id = "k1"; sequence_num = 9 })
    ∷ []

abbrev third : Message
third = record {
  id = "k3";
  channel_id = "c";
  sender_id = "ann";
  client_msg_id = "k3";
  sequence_num = none;
  text = "three";
  status = Status.pending;
  message_type = MessageType.text_message;
  created_at = 7;
}

outbox_run-pending_example : In 2 (outbox_run sendings empty_outbox).under_way
unfolding outbox_run outbox_step send dispatch delivered create_message insert
outbox_run-pending_example = outbox_run-pending sendings empty_outbox 2 third refl refl refl
