-- ===== src/Tests/Sync.antt =====
-- The theorems on the reconciler of the client database, at a concrete run.
use genchat.Base.{
  ℕ, String, ◌≡◌, refl, Option, none, some, List, [], ◌∷◌, ◌++◌, leb→le, length, zero, suc, false,
}
use genchat.ClientDb.Database.{Database}
use genchat.ClientDb.Sync.{
  Payload, Reconciler, idle, Event, enqueues, fires, proceeds, run, step, proceed, enqueue,
  timer_fires, flush_queue,
}
use genchat.ClientDb.Sync.Spec.{Delivery, payloads, enqueued, outstanding, deliver_all, Reaches}
use genchat.ClientDb.Sync.Refine.{run-refines}
use genchat.ClientDb.Sync.Live.{settling}
use genchat.ClientDb.Sync.Deliver.{run-delivers}

-- Texts of type 0 are not opened; the others are two bytes long.
abbrev opens : String → String → ℕ → String → Option (List ℕ)
opens session key zero text = none
opens session key (suc n) text = some (n ∷ n ∷ [])

abbrev decodes : List ℕ → String
decodes bytes = "text"

abbrev payload : String → ℕ → Payload
payload id n = record {
  channel_id = "c1";
  sender_id = "ann";
  message_id = id;
  sequence_num = n;
  ciphertext_base64 = "AAAA";
  message_type = n;
  session_pickle = "s";
  pickle_key_hex = "00";
  timestamp = none;
}

abbrev one_channel : Database
one_channel = record {
  channels = record {
    objects = record { id = "c1"; last_message_at = none; unread_count = 2 } ∷ [];
    items = ("c1", 0) ∷ [];
  };
  messages = record { objects = []; items = [] };
}

abbrev at_rest : Reconciler
at_rest = record { queue = []; work = idle; batch_timer = false; results = []; db = one_channel }

abbrev pushes : List Event
pushes =
    enqueues (payload "m1" 1)
    ∷ enqueues (payload "m2" 0)
    ∷ fires
    ∷ proceeds "r1" 10
    ∷ enqueues (payload "m3" 1)
    ∷ proceeds "r2" 11
    ∷ proceeds "r3" 12
    ∷ []

run-refines_example :
    let t = run opens decodes pushes at_rest in
    (vs : List Delivery) × Reaches opens decodes
      (deliver_all opens decodes vs one_channel)
      t.work
      t.db
    × (payloads vs ++ outstanding t ≡ enqueued pushes)
run-refines_example = run-refines opens decodes one_channel pushes at_rest tt refl refl refl

abbrev draws : List (String × ℕ)
draws = ("z", 18) ∷ ("y", 19) ∷ ("a", 20) ∷ ("b", 21) ∷ ("c", 22) ∷ []

run-delivers_example :
    let t = run opens decodes (pushes ++ settling draws draws) at_rest in
    (vs : List Delivery) × (t.work ≡ idle)
    × (t.queue ≡ [])
    × (t.db ≡ deliver_all opens decodes vs one_channel)
    × (payloads vs ≡ enqueued pushes)
unfolding run step proceed enqueue timer_fires flush_queue
run-delivers_example =
    run-delivers opens decodes pushes draws draws at_rest tt refl refl
      (leb→le 2 (length draws) refl) (leb→le 3 (length draws) refl)
