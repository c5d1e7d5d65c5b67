-- ===== src/Tests/Sockets.antt =====
-- The theorems on the socket client and on hexadecimal text, at concrete inputs.
use genchat.Base.{◌*◌, ◌≤◌, ◌≡◌, refl, inl, List, [], ◌∷◌, ◌++◌, arith}
use genchat.Transport.Backoff.{backoff, exp_backoff, backoff_bounds}
use genchat.Transport.{
  idle, run, step, Event, call_connect, call_send, call_disconnect, opened, closed, reconnect,
  heartbeat, acknowledged, send, timeout, received, ack,
}
use genchat.Transport.Fifo.{payloads, frames, run-fifo}
use genchat.Transport.Closed.{IsStopped, IsStopped-until_connect}
use genchat.Transport.Acks.{send-ack_once}

abbrev session : List Event
session =
    call_connect "t"
    ∷ call_send "one" "k1"
    ∷ opened 0
    ∷ call_send "two" "k2"
    ∷ heartbeat
    ∷ closed 0 1006 5
    ∷ call_send "three" "k3"
    ∷ reconnect
    ∷ opened 1
    ∷ []

run-fifo_example :
    payloads (run session idle).sent ++ (run session idle).send_queue ≡ frames session
run-fifo_example = run-fifo session

backoff_bounds_example :
    (exp_backoff 3 ≤ 2 * backoff 3 77)
    × (backoff 3 77 ≤ exp_backoff 3)
    × (500 ≤ backoff 3 77)
    × (backoff 3 77 ≤ 30000)
backoff_bounds_example = backoff_bounds 3 77 (omega arith)

abbrev afterwards : List Event
afterwards = closed 1 1006 9 ∷ reconnect ∷ call_send "four" "k4" ∷ []

IsStopped-until_connect_example :
    IsStopped (run session idle).sockets (run afterwards (step call_disconnect (run session idle)))
IsStopped-until_connect_example =
    IsStopped-until_connect call_disconnect afterwards (run session idle) (inl refl)
      (refl, (refl, (refl, tt)))

-- The connection is lost and made again before the acknowledgement, and the timeout comes after it.
abbrev before_ack : List Event
before_ack = call_send "five" "k5" ∷ closed 1 1006 9 ∷ reconnect ∷ opened 2 ∷ timeout 4 "k5" ∷ []

abbrev after_ack : List Event
after_ack = received (ack "k9") ∷ timeout 3 "k9" ∷ call_disconnect ∷ []

send-ack_once_example :
    let t = run session idle in
    let u = run before_ack (send "nine" "k9" t) in
    let v = step (received (ack "k9")) u in
    let w = run after_ack v in
    (v.settled ≡ u.settled ++ ((t.promises, acknowledged) ∷ []))
    × ((step (received (ack "k9")) w).settled ≡ w.settled)
    × (step (timeout t.promises "k9") w ≡ w)
send-ack_once_example =
    send-ack_once "nine" "k9" before_ack after_ack (run session idle) refl
      (refl, (refl, (refl, (refl, (refl, tt))))) (refl, (refl, (refl, tt)))
