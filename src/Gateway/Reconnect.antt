-- ===== src/Gateway/Reconnect.antt =====
-- packages/client-web/src/lib/gateway-client.ts: how often the client connects again.
use genchat.Base.{
  ℕ, suc, ◌+◌, ◌-◌, ◌≤◌, String, ◌==◌, ◌≡◌, refl, ap, Bool, true, false, Option, some, List, [],
  ◌∷◌, ◌++◌, arith, length, All,
}
use genchat.Gateway.Frame.{Value, Field, Fields, Raw}
use genchat.Gateway.{
  Gateway, connect, disconnect, on_open, on_close, on_error, on_reconnect_timer, on_drain_timer,
  send_open, on_ping, on_message, schedule_reconnect,
}
use genchat.Gateway.Requests.{Outgoing, send_envelope, ack_timeout}

-- What happens to a client, with the access token, whether a socket can be made, the value of
-- `Math.random` and the clock where the code asks for them.
pub data Event : Type 0 where
  calls_connect : Option String → Bool → ℕ → Event
  calls_disconnect : Event
  opens : ℕ → Event
  closes : ℕ → ℕ → Event
  reconnects : Option String → Bool → ℕ → Event
  drained : ℕ → Event
  fails : Event
  pings : Event
  receives : ℕ → Option Raw → Event
  sends : Fields → Event
  sends_envelope : Outgoing → Option String → Event
  times_out : ℕ → String → Event

abbrev call_of : Event → ℕ
call_of (calls_connect token created random) = 1
call_of _ = 0

-- How often a caller connects.
abbrev pub connects : List Event → ℕ
connects [] = 0
connects (e ∷ es) = call_of e + connects es

abbrev IsNoOpening : Event → Type 0
IsNoOpening (opens s) = ⊥
IsNoOpening _ = Unit

-- No connection is opened.
abbrev pub Unopened : List Event → Type 0
Unopened es = All IsNoOpening es

-- The sockets made, and those that may still be made without a caller or an opening.
abbrev pub budget : Gateway → ℕ
budget g = g.sockets + (length g.reconnect_timers + (10 - g.reconnect_attempts))

length-append_one : (l : List ℕ) (n : ℕ) → length (l ++ (n ∷ [])) ≡ suc (length l)
length-append_one [] n = refl
length-append_one (x ∷ l) n = ap suc (length-append_one l n)

schedule_reconnect-budget : (r : ℕ) (g : Gateway) → budget (schedule_reconnect r g) ≤ budget g
unfolding schedule_reconnect
schedule_reconnect-budget r g = grind (arith, length-append_one)

connect-budget :
    (token : Option String) (created : Bool) (r : ℕ) (g : Gateway)
    → budget (connect token created r g) ≤ suc (budget g)
unfolding connect
connect-budget token created r g = grind (arith, schedule_reconnect-budget)

on_close-budget : (s r : ℕ) (g : Gateway) → budget (on_close s r g) ≤ budget g
unfolding on_close
on_close-budget s r g = grind (arith, schedule_reconnect-budget)

on_drain_timer-budget : (r : ℕ) (g : Gateway) → budget (on_drain_timer r g) ≤ budget g
unfolding on_drain_timer
on_drain_timer-budget r g = grind (arith, schedule_reconnect-budget)

on_reconnect_timer-budget :
    (token : Option String) (created : Bool) (r : ℕ) (g : Gateway)
    → budget (on_reconnect_timer token created r g) ≤ budget g
unfolding on_reconnect_timer
on_reconnect_timer-budget token created r g = grind (arith, connect-budget)

send_open-budget : (f : Fields) (g : Gateway) → budget (send_open f g) ≡ budget g
unfolding send_open
send_open-budget f g = ground arith

module _ (number_of : Value → Value) (safe_base64_decode : Field → String) where
  unfoldable pub step : Event → Gateway → Gateway
  step (calls_connect token created random) g = connect token created random g
  step calls_disconnect g = disconnect g
  step (opens s) g = on_open s g
  step (closes s random) g = on_close s random g
  step (reconnects token created random) g = on_reconnect_timer token created random g
  step fails g = on_error g
  step (drained random) g = on_drain_timer random g
  step pings g = on_ping g
  step (receives now raw) g = on_message number_of safe_base64_decode now raw g
  step (sends frame) g = send_open frame g
  step (sends_envelope e b64) g = send_envelope e b64 g
  step (times_out promise id) g = ack_timeout promise id g

  unfoldable pub run : List Event → Gateway → Gateway
  run [] g = g
  run (e ∷ es) g = run es (step e g)

  on_message-budget :
      (now : ℕ) (raw : Option Raw) (g : Gateway)
      → budget (on_message number_of safe_base64_decode now raw g) ≡ budget g
  unfolding on_message
  on_message-budget now raw g = ground arith

  step-budget : (e : Event) (g : Gateway) → IsNoOpening e → budget (step e g) ≤ call_of e + budget g
  unfolding step disconnect on_error on_ping send_envelope ack_timeout
  step-budget (calls_connect token created r) g h = omega (arith, connect-budget token created r g)
  step-budget calls_disconnect g h = omega arith
  step-budget (opens s) g h = absurd h
  step-budget (closes s r) g h = omega (arith, on_close-budget s r g)
  step-budget (reconnects token created r) g h =
      omega (arith, on_reconnect_timer-budget token created r g)
  step-budget (drained r) g h = omega (arith, on_drain_timer-budget r g)
  step-budget fails g h = omega arith
  step-budget pings g h = grind (arith, send_open-budget)
  step-budget (receives now raw) g h = omega (arith, on_message-budget now raw g)
  step-budget (sends frame) g h = omega (arith, send_open-budget frame g)
  step-budget (sends_envelope e b64) g h = ground arith
  step-budget (times_out promise id) g h = ground arith

  run-budget :
      (es : List Event) (g : Gateway) → Unopened es → budget (run es g) ≤ connects es + budget g
  unfolding run
  run-budget [] g h = omega arith
  run-budget (e ∷ es) g (h, hs) = omega (arith, run-budget es (step e g) hs, step-budget e g h)

  -- Reconnecting ends: in a run in which no connection is opened, whatever closes, times out, is received
  -- or is sent, the sockets that are made are at most one for each call of connect, one for each
  -- reconnection timer that was set before, and what is left of ten attempts.
  pub run-sockets :
      (es : List Event) (g : Gateway)
      → Unopened es
      → (run es g).sockets
        ≤ connects es + (g.sockets + (length g.reconnect_timers + (10 - g.reconnect_attempts)))
  run-sockets es g h = omega (arith, run-budget es g h)

-- A reconnection timer that was set before disconnect is called makes a new socket when it fires, if
-- there is an access token and the socket can be made, and the client does not count as disconnected by
-- its user any more.
pub disconnect_reconnects :
    (token : String) (delay : ℕ) (rest : List ℕ) (random : ℕ) (g : Gateway)
    → g.reconnect_timers ≡ delay ∷ rest
    → (token == "") ≡ false
    → let h = on_reconnect_timer (some token) true random (disconnect g) in
      (h.ws ≡ some g.sockets) × (h.sockets ≡ suc g.sockets) × (h.is_explicit_disconnect ≡ false)
unfolding disconnect on_reconnect_timer connect
disconnect_reconnects token delay rest random g e f = ground arith

-- After the timer of a shutdown notice has closed a connected client, and the socket that it closed reports that
-- it is closed, two reconnection timers more are set, where at most eight attempts have been made and
-- the user has not disconnected.
pub drain_twice :
    (s random again : ℕ) (n : ℕ) (g : Gateway)
    → g.ws ≡ some s
    → g.drains ≡ suc n
    → g.reconnect_attempts ≤ 8
    → g.is_explicit_disconnect ≡ false
    → length (on_close s again (on_drain_timer random g)).reconnect_timers
      ≡ length g.reconnect_timers + 2
unfolding on_drain_timer on_close schedule_reconnect
drain_twice s random again n g w d a x = grind (arith, length-append_one)
