-- ===== src/Transport.antt =====
-- packages/client-web/src/lib/ws-transport.ts: `WsTransport`, the WebSocket client of the gateway. Its
-- methods and the callbacks of its sockets and timers are steps of one state. A socket is a number, and
-- each callback keeps the socket that it was set on.
pub mod Backoff
pub mod Fifo
pub mod Closed
pub mod Acks
use genchat.Base.{
  ℕ, ◌+◌, String, ◌==◌, Bool, true, false, not, ◌&&◌, Option, none, some, List, [], ◌∷◌, ◌++◌,
  if◌then◌else◌, nat_eq, ltb, map, any, filter, lookup, insert, remove,
}
use genchat.Transport.Backoff.{backoff}

pub data Frame : Type 0 where
  payload : String → Frame
  ping : Frame

-- A message of the gateway, after `JSON.parse`.
pub data Inbound : Type 0 where
  not_json session_evicted : Inbound
  ack : String → Inbound
  other : String → Inbound

pub data Settlement : Type 0 where
  acknowledged timed_out : Settlement

pub record Transport : Type 0 where
  pub ws : Option ℕ
  pub token : String
  pub reconnect_attempts : ℕ
  -- The delay of the timer that is armed; a timer that has fired is `none`, as clearing it does nothing.
  pub reconnect_timer : Option ℕ
  pub heartbeat_timer : Bool
  -- The promise whose resolver is kept under a client id.
  pub pending_acks : List (String × ℕ)
  pub send_queue : List String
  pub destroyed : Bool
  -- What is outside the object: the sockets made and those that are OPEN, what they sent, the promises
  -- made and how they ended, and the frames that the handlers were given.
  pub sockets : ℕ
  pub open_sockets : List ℕ
  pub sent : List (ℕ × Frame)
  pub promises : ℕ
  pub settled : List (ℕ × Settlement)
  pub notified : List Inbound

abbrev pub idle : Transport
idle = record {
  ws = none;
  token = "";
  reconnect_attempts = 0;
  reconnect_timer = none;
  heartbeat_timer = false;
  pending_acks = [];
  send_queue = [];
  destroyed = false;
  sockets = 0;
  open_sockets = [];
  sent = [];
  promises = 0;
  settled = [];
  notified = [];
}

abbrev pub holds : ℕ → List ℕ → Bool
holds s l = any (nat_eq s) l

abbrev pub leaving : ℕ → List ℕ → List ℕ
leaving s l = filter (λ x. not (nat_eq s x)) l

-- `this.ws?.readyState === WebSocket.OPEN`, with the socket.
abbrev pub open_socket : Transport → Option ℕ
open_socket t = elim t.ws [ none ↦ none | some s ↦ if holds s t.open_sockets then some s else none ]

unfoldable pub clear_timers : Transport → Transport
clear_timers t = record t { heartbeat_timer = false; reconnect_timer = none }

unfoldable pub open_connection : Transport → Transport
open_connection t =
    if t.destroyed then t else record t { ws = some t.sockets; sockets = t.sockets + 1 }

unfoldable pub connect : String → Transport → Transport
unfolding open_connection
connect token t = open_connection (record t { token = token; destroyed = false })

unfoldable pub disconnect : Transport → Transport
unfolding clear_timers
disconnect t = record (clear_timers t) {
  destroyed = true;
  open_sockets = elim t.ws [ none ↦ t.open_sockets | some s ↦ leaving s t.open_sockets ];
  ws = none;
}

-- The promise that is returned has the number `t.promises`.
unfoldable pub send : String → String → Transport → Transport
send frame client_msg_id t =
    let t' = record t {
      promises = t.promises + 1;
      pending_acks =
          if client_msg_id == ""
          then t.pending_acks
          else insert client_msg_id t.promises t.pending_acks;
    } in
    elim (open_socket t) [
      | some s ↦ record t' { sent = t.sent ++ ((s, payload frame) ∷ []) }
      | none ↦ record t' { send_queue = t.send_queue ++ (frame ∷ []) }
    ]

-- The timeout that `send` sets, for its promise and its client id.
unfoldable pub ack_timeout : ℕ → String → Transport → Transport
ack_timeout promise client_msg_id t = elim (lookup client_msg_id t.pending_acks) [
  | none ↦ t
  | some _ ↦ record t {
    pending_acks = remove client_msg_id t.pending_acks;
    settled = t.settled ++ ((promise, timed_out) ∷ []);
  }
]

-- `ws.onopen`
unfoldable pub on_open : ℕ → Transport → Transport
on_open s t = record t {
  open_sockets = s ∷ t.open_sockets;
  reconnect_attempts = 0;
  heartbeat_timer = true;
  sent = t.sent ++ map (λ f. (s, payload f)) t.send_queue;
  send_queue = [];
}

unfoldable pub resolve_ack : String → Transport → Transport
resolve_ack client_msg_id t = elim (lookup client_msg_id t.pending_acks) [
  | none ↦ t
  | some promise ↦ record t {
    pending_acks = remove client_msg_id t.pending_acks;
    settled = t.settled ++ ((promise, acknowledged) ∷ []);
  }
]

-- `ws.onmessage`
unfoldable pub on_message : Inbound → Transport → Transport
unfolding resolve_ack clear_timers
on_message not_json t = t
on_message (ack id) t =
    let t' = resolve_ack id t in record t' { notified = t'.notified ++ (ack id ∷ []) }
on_message session_evicted t = record (clear_timers t) {
  destroyed = true;
  notified = t.notified ++ (session_evicted ∷ []);
}
on_message (other f) t = record t { notified = t.notified ++ (other f ∷ []) }

-- `Math.random()` is `random` over 2 ^ 53.
unfoldable pub schedule_reconnect : ℕ → Transport → Transport
schedule_reconnect random t = record t {
  reconnect_attempts = t.reconnect_attempts + 1;
  reconnect_timer = some (backoff t.reconnect_attempts random);
}

-- `ws.onclose`
unfoldable pub on_close : ℕ → ℕ → ℕ → Transport → Transport
unfolding clear_timers schedule_reconnect
on_close s code random t =
    let t' = record (clear_timers t) { open_sockets = leaving s t.open_sockets } in
    if not t.destroyed && not (nat_eq code 1000) then schedule_reconnect random t' else t'

unfoldable pub on_reconnect_timer : Transport → Transport
unfolding open_connection
on_reconnect_timer t = elim t.reconnect_timer [
  | none ↦ t
  | some _ ↦ open_connection (record t { reconnect_timer = none })
]

unfoldable pub on_heartbeat : Transport → Transport
on_heartbeat t =
    if t.heartbeat_timer
    then elim (open_socket t) [ none ↦ t | some s ↦ record t { sent = t.sent ++ ((s, ping) ∷ []) } ]
    else t

-- What can happen: a call of a method, or a callback. A socket opens only if it has been made.
pub data Event : Type 0 where
  call_connect : String → Event
  call_disconnect heartbeat reconnect : Event
  call_send : String → String → Event
  timeout : ℕ → String → Event
  opened : ℕ → Event
  received : Inbound → Event
  closed : ℕ → ℕ → ℕ → Event

unfoldable pub step : Event → Transport → Transport
unfolding connect disconnect send ack_timeout on_open on_message on_close on_reconnect_timer
    on_heartbeat
step (call_connect token) t = connect token t
step call_disconnect t = disconnect t
step (call_send frame id) t = send frame id t
step (timeout promise id) t = ack_timeout promise id t
step (opened s) t = if ltb s t.sockets then on_open s t else t
step (received m) t = on_message m t
step (closed s code random) t = on_close s code random t
step heartbeat t = on_heartbeat t
step reconnect t = on_reconnect_timer t

abbrev pub run : List Event → Transport → Transport
run [] t = t
run (e ∷ es) t = run es (step e t)
