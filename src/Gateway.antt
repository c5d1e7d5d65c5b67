-- ===== src/Gateway.antt =====
-- packages/client-web/src/lib/gateway-client.ts: `GatewayClient`. Its methods and the callbacks of its
-- sockets and timers are steps of one state. A socket and a promise are numbers; handlers are not
-- kept, but what they are given is.
pub mod Frame
pub mod Dispatch
pub mod Backoff
pub mod Base64
pub mod Requests
pub mod Reconnect
use genchat.Base.{
  ℕ, zero, suc, ◌+◌, String, ◌==◌, Bool, true, false, not, ◌&&◌, ◌||◌, Option, none, some, List, [],
  ◌∷◌, ◌++◌, if◌then◌else◌, nat_eq, ltb, any, filter, lookup, insert, remove,
}
use genchat.Gateway.Frame.{
  Value, text, number, Field, Fields, field, is_text, Raw, Given, or, coalesce, truthy, either,
}
use genchat.Gateway.Dispatch.{dispatch}
use genchat.Gateway.Backoff.{backoff, max_reconnect_attempts}

pub data Settlement : Type 0 where
  acknowledged : Field → Settlement
  timed_out not_open not_encoded : Settlement

pub record Gateway : Type 0 where
  pub ws : Option ℕ
  pub reconnect_attempts : ℕ
  -- The resolver of a promise, under a client id.
  pub pending_acks : List (String × ℕ)
  pub ping_timer : Bool
  pub is_explicit_disconnect : Bool
  -- What is outside the object: the sockets made and those that are OPEN, the delays of the timers of
  -- `scheduleReconnect` that have not fired, the notices of the server whose timer has not fired, what
  -- the sockets sent, the promises made and how they ended, and what the handlers were given.
  pub sockets : ℕ
  pub open_sockets : List ℕ
  pub reconnect_timers : List ℕ
  pub drains : ℕ
  pub sent : List (ℕ × Fields)
  pub promises : ℕ
  pub settled : List (ℕ × Settlement)
  pub statuses : List Bool
  pub given : List Given

abbrev pub new_client : Gateway
new_client = record {
  ws = none;
  reconnect_attempts = 0;
  pending_acks = [];
  ping_timer = false;
  is_explicit_disconnect = false;
  sockets = 0;
  open_sockets = [];
  reconnect_timers = [];
  drains = 0;
  sent = [];
  promises = 0;
  settled = [];
  statuses = [];
  given = [];
}

-- `this.ws` where it is there and OPEN.
abbrev pub open_socket : Gateway → Option ℕ
open_socket g = elim g.ws [
  | none ↦ none
  | some s ↦ if any (nat_eq s) g.open_sockets then some s else none
]

abbrev pub is_connected : Gateway → Bool
is_connected g = elim (open_socket g) [ none ↦ false | some s ↦ true ]

abbrev pub set_status : Bool → Gateway → Gateway
set_status connected g = record g { statuses = g.statuses ++ (connected ∷ []) }

abbrev pub leaving : ℕ → List ℕ → List ℕ
leaving s l = filter (λ x. not (nat_eq s x)) l

-- `random` is the value of `Math.random`.
unfoldable pub schedule_reconnect : ℕ → Gateway → Gateway
schedule_reconnect random g =
    if ltb g.reconnect_attempts max_reconnect_attempts
    then record g {
      reconnect_attempts = g.reconnect_attempts + 1;
      reconnect_timers = g.reconnect_timers ++ (backoff (g.reconnect_attempts + 1) random ∷ []);
    }
    else g

abbrev no_token : Option String → Bool
no_token none = true
no_token (some t) = t == ""

-- `created` says whether the constructor of the socket returns.
unfoldable pub connect : Option String → Bool → ℕ → Gateway → Gateway
connect token created random g =
    let g' = record g { is_explicit_disconnect = false } in
    if no_token token
    then set_status false g'
    else if created
    then record g' { ws = some g.sockets; sockets = g.sockets + 1 }
    else schedule_reconnect random g'

unfoldable pub disconnect : Gateway → Gateway
disconnect g = set_status false (record g {
  is_explicit_disconnect = true;
  ping_timer = false;
  open_sockets = elim g.ws [ none ↦ g.open_sockets | some s ↦ leaving s g.open_sockets ];
  ws = none;
})

-- `ws.onopen`, which is set on the socket `s`
unfoldable pub on_open : ℕ → Gateway → Gateway
on_open s g =
    set_status true
      (record g { open_sockets = s ∷ g.open_sockets; reconnect_attempts = 0; ping_timer = true })

-- `ws.onclose`
unfoldable pub on_close : ℕ → ℕ → Gateway → Gateway
on_close s random g =
    let g' =
      set_status false (record g { open_sockets = leaving s g.open_sockets; ping_timer = false }) in
    if g.is_explicit_disconnect then g' else schedule_reconnect random g'

-- `ws.onerror`
unfoldable pub on_error : Gateway → Gateway
on_error g = set_status false g

-- The timer of `scheduleReconnect`, which fires once.
unfoldable pub on_reconnect_timer : Option String → Bool → ℕ → Gateway → Gateway
on_reconnect_timer token created random g = elim g.reconnect_timers [
  | [] ↦ g
  | delay ∷ rest ↦ connect token created random (record g { reconnect_timers = rest })
]

-- The timer of a notice of the server that it shuts down.
unfoldable pub on_drain_timer : ℕ → Gateway → Gateway
on_drain_timer random g = elim g.drains [
  | zero ↦ g
  | suc n ↦ schedule_reconnect random (record g {
    drains = n;
    open_sockets = elim g.ws [ none ↦ g.open_sockets | some s ↦ leaving s g.open_sockets ];
  })
]

-- `this.ws.send` behind the guard of every method that sends.
unfoldable pub send_open : Fields → Gateway → Gateway
send_open frame g = elim (open_socket g) [
  | none ↦ g
  | some s ↦ record g { sent = g.sent ++ ((s, frame) ∷ []) }
]

-- The interval of `startHeartbeat`.
unfoldable pub on_ping : Gateway → Gateway
on_ping g = if g.ping_timer then send_open (("action", text "ping") ∷ []) g else g

abbrev ack_id : Fields → Field
ack_id r = either "client_msg_id" "clientMsgId" r

abbrev settle_ack : Field → Field → Gateway → Gateway
settle_ack (some (text id)) seq g = elim (lookup id g.pending_acks) [
  | none ↦ g
  | some promise ↦ record g {
    pending_acks = remove id g.pending_acks;
    settled = g.settled ++ ((promise, acknowledged seq) ∷ []);
  }
]
settle_ack _ seq g = g

abbrev acked : Fields → Gateway → Gateway
acked r g =
    if is_text "ack" (field "type" r)
    then if truthy (ack_id r)
      then settle_ack (ack_id r)
          (coalesce (field "sequence_num" r) (coalesce (field "sequenceNum" r) (some (number 0)))) g
      else g
    else g

-- `ws.onmessage`: a text that is no JSON object gives nothing. A notice that the server
-- shuts down sets a timer.
module _ (number_of : Value → Value) (safe_base64_decode : Field → String) where
  unfoldable pub on_message : ℕ → Option Raw → Gateway → Gateway
  on_message now none g = g
  on_message now (some raw) g =
      let g' = acked raw.fields g in
      record g' {
        given = g'.given ++ dispatch number_of safe_base64_decode now raw;
        drains = if is_text "reconnect" (field "type" raw.fields) then g'.drains + 1 else g'.drains;
      }
