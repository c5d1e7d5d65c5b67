-- ===== src/Tests/Gateway.antt =====
-- The theorems on the gateway client, at concrete runs.
use genchat.Base.{
  ℕ, suc, ◌+◌, ◌-◌, ◌≤◌, String, ◌≡◌, refl, false, true, none, some, List, [], ◌∷◌, map, reverse,
  length, lookup,
}
use genchat.Gateway.Frame.{Value, text, number, Field, Fields, field}
use genchat.Gateway.Dispatch.{dispatch, pushed, as_push, unnumbered, history-push}
use genchat.Gateway.{Gateway, new_client, on_reconnect_timer, disconnect}
use genchat.Gateway.Reconnect.{
  Event, connects, calls_connect, closes, reconnects, receives, run, run-sockets,
  disconnect_reconnects,
}

abbrev numbers : Value → Value
numbers v = v

abbrev plain : Field → String
plain (some (text t)) = t
plain f = ""

abbrev losses : List Event
losses =
    calls_connect (some "t") true 1
    ∷ closes 0 5
    ∷ reconnects (some "t") false 6
    ∷ reconnects (some "t") true 7
    ∷ receives 8 none
    ∷ closes 1 9
    ∷ []

run-sockets_example :
    (run numbers plain losses new_client).sockets
    ≤ connects losses
      + (new_client.sockets
          + (length new_client.reconnect_timers + (10 - new_client.reconnect_attempts)))
run-sockets_example =
    run-sockets numbers plain losses new_client (tt, (tt, (tt, (tt, (tt, (tt, tt))))))

-- A client that has lost its connection and waits to connect again.
abbrev waiting : Gateway
waiting = record new_client {
  ws = some 0;
  sockets = 1;
  reconnect_attempts = 1;
  reconnect_timers = 1500 ∷ [];
}

disconnect_reconnects_example :
    let h = on_reconnect_timer (some "t") true 3 (disconnect waiting) in
    (h.ws ≡ some waiting.sockets)
    × (h.sockets ≡ suc waiting.sockets)
    × (h.is_explicit_disconnect ≡ false)
disconnect_reconnects_example = disconnect_reconnects "t" 1500 [] 3 waiting refl refl

-- A message as the gateway stores it.
abbrev stored : String → ℕ → Fields
stored id n =
    ("server_id", text id)
    ∷ ("sequence_num", number n)
    ∷ ("sender_id", text "ann")
    ∷ ("client_msg_id", text "")
    ∷ ("ciphertext_base64", text "AAAA")
    ∷ ("created_at_unix", number 1700)
    ∷ []

abbrev history : Fields
history = ("type", text "history") ∷ ("channel_id", text "c1") ∷ []

history-push_example :
    map (unnumbered numbers plain 5) (
      dispatch numbers plain 5
        (record { fields = history; messages = some (stored "m2" 2 ∷ stored "m1" 1 ∷ []) }))
    ≡ map (unnumbered numbers plain 5) (
        pushed numbers plain 5 (
          map
            (as_push numbers plain 5 (field "channel_id" history))
            (reverse (stored "m2" 2 ∷ stored "m1" 1 ∷ []))))
unfolding lookup
history-push_example =
    history-push numbers plain 5 history (stored "m2" 2 ∷ stored "m1" 1 ∷ []) refl
      (refl, (refl, tt))
