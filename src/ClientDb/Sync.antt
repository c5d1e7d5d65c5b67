-- ===== src/ClientDb/Sync.antt =====
-- packages/client-db/src/sync/reconciler.ts: `InboundSyncReconciler`. A flush awaits the database between
-- its writes, so it is a machine: what is left of its batch is part of the state, and calls
-- and timers come in between. `update` of a record may reject; decryption and its decoder are
-- parameters.
pub mod Spec
pub mod Refine
pub mod Live
pub mod Deliver
use genchat.Base.{
  ℕ, zero, suc, String, Bool, true, false, Option, none, some, List, [], ◌∷◌, ◌++◌, length,
}
use genchat.ClientDb.Database.{
  Message, Status, MessageType, Channel, Collection, Database, find, modify, create_message,
}

pub record Payload : Type 0 where
  pub channel_id : String
  pub sender_id : String
  pub message_id : String
  pub sequence_num : ℕ
  pub ciphertext_base64 : String
  pub message_type : ℕ
  pub session_pickle : String
  pub pickle_key_hex : String
  pub timestamp : Option ℕ

-- Where a flush stands: with the size of its batch, it has yet to create the message of the first
-- payload left, or to find and update the channel of the payload whose message it has created.
pub data Work : Type 0 where
  idle : Work
  creating : ℕ → List Payload → Work
  counting : ℕ → Payload → List Payload → Work

pub record Reconciler : Type 0 where
  pub queue : List Payload
  -- `isProcessing` holds where this is not `idle`.
  pub work : Work
  -- A timer is set.
  pub batch_timer : Bool
  -- How the promises of the flushes end: the number given, or a rejection.
  pub results : List (Option ℕ)
  pub db : Database

abbrev pub created_at : Option ℕ → ℕ → ℕ
created_at none now = now
created_at (some zero) now = now
created_at (some (suc t)) now = suc t

abbrev pub counted : ℕ → Channel → Channel
counted now c = record c { last_message_at = some now; unread_count = suc c.unread_count }

-- The channel of a payload, where there is one, has one more unread message.
unfoldable pub count : ℕ → Payload → Database → Database
count now p d = elim (find p.channel_id d.channels) [
  | none ↦ d
  | some n ↦ record d {
    channels = record d.channels { objects = modify n (counted now) d.channels.objects };
  }
]

abbrev pub schedule_batch : Reconciler → Reconciler
schedule_batch s = elim s.work [ idle ↦ record s { batch_timer = true } | _ ↦ s ]

unfoldable pub enqueue : Payload → Reconciler → Reconciler
enqueue p s = schedule_batch (record s { queue = s.queue ++ (p ∷ []) })

abbrev start : List Payload → Reconciler → Reconciler
start [] s = record s { results = s.results ++ (some 0 ∷ []) }
start (p ∷ ps) s = record s { queue = []; work = creating (length (p ∷ ps)) (p ∷ ps) }

-- `flushQueue` up to its loop.
unfoldable pub flush_queue : Reconciler → Reconciler
flush_queue s = elim s.work [
  | idle ↦ start s.queue s
  | _ ↦ record s { results = s.results ++ (some 0 ∷ []) }
]

unfoldable pub timer_fires : Reconciler → Reconciler
timer_fires s = elim s.batch_timer [
  | true ↦ flush_queue (record s { batch_timer = false })
  | false ↦ s
]

abbrev reschedule : List Payload → Reconciler → Reconciler
reschedule [] s = s
reschedule (p ∷ ps) s = schedule_batch s

-- The `finally` block, with how the promise ends.
unfoldable pub finish : Option ℕ → Reconciler → Reconciler
finish result s =
    reschedule s.queue (record s { work = idle; results = s.results ++ (result ∷ []) })

pub data Event : Type 0 where
  enqueues : Payload → Event
  fires flushes : Event
  -- The flush goes on, with a random default id and the clock.
  proceeds : String → ℕ → Event
  -- The update of the channel rejects.
  update_rejects : Event

module _ (decrypt_message : String → String → ℕ → String → Option (List ℕ))
    (decode : List ℕ → String) where
  unfoldable pub plaintext : Payload → String
  plaintext p =
      elim (decrypt_message p.session_pickle p.pickle_key_hex p.message_type p.ciphertext_base64) [
        | some bytes ↦ decode bytes
        | none ↦ "[Decryption Failed]"
      ]

  abbrev pub inbound_message : ℕ → Payload → Message
  inbound_message now p = record {
    id = p.message_id;
    channel_id = p.channel_id;
    sender_id = p.sender_id;
    client_msg_id = p.message_id;
    sequence_num = some p.sequence_num;
    text = plaintext p;
    status = Status.delivered;
    message_type = MessageType.text_message;
    created_at = created_at p.timestamp now;
  }

  unfoldable pub store : String → ℕ → Payload → Database → Database
  store random now p d = record d {
    messages = (create_message random (inbound_message now p) d.messages).0;
  }

  unfoldable pub proceed : String → ℕ → Reconciler → Reconciler
  proceed random now s = elim s.work [
    | idle ↦ s
    | creating n [] ↦ finish (some n) s
    | creating n (p ∷ ps) ↦ record s { work = counting n p ps; db = store random now p s.db }
    | counting n p ps ↦ record s { work = creating n ps; db = count now p s.db }
  ]

  -- Only a channel that is found is updated.
  unfoldable pub reject_update : Reconciler → Reconciler
  reject_update s = elim s.work [
    | counting n p ps ↦ elim (find p.channel_id s.db.channels) [ none ↦ s | some c ↦ finish none s ]
    | _ ↦ s
  ]

  unfoldable pub step : Event → Reconciler → Reconciler
  step (enqueues p) s = enqueue p s
  step fires s = timer_fires s
  step flushes s = flush_queue s
  step (proceeds random now) s = proceed random now s
  step update_rejects s = reject_update s

  unfoldable pub run : List Event → Reconciler → Reconciler
  run [] s = s
  run (e ∷ es) s = run es (step e s)
