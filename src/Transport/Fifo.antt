-- ===== src/Transport/Fifo.antt =====
-- In what order frames are sent.
use mathlib.Core.Option.{none-ne-some}
use genchat.Base.{
  ℕ, ◌+◌, ◌<◌, String, ◌≡◌, refl, sym, ap, subst, inl, inr, Bool-cases, ◌∙◌, Bool, true, false, not,
  Option, none, some, List, [], ◌∷◌, ◌++◌, arith, if◌then◌else◌, nat_eq, ltb, All, map, All-map,
  All-filter,
}
use mathlib.Core.List.{append-nil, append_assoc}
use genchat.Transport.{
  Transport, Event, Frame, payload, ping, call_connect, call_disconnect, call_send, timeout, opened,
  received, closed, heartbeat, reconnect, not_json, session_evicted, ack, other, open_socket, holds,
  leaving, step, run, idle, connect, disconnect, send, ack_timeout, on_open, on_message, on_close,
  on_reconnect_timer, on_heartbeat, clear_timers, open_connection, schedule_reconnect, resolve_ack,
}

-- The frames of `send` among what was sent.
abbrev pub payloads : List (ℕ × Frame) → List String
payloads [] = []
payloads ((s, payload f) ∷ l) = f ∷ payloads l
payloads ((s, ping) ∷ l) = payloads l

-- The frames that callers gave to `send`, in the order of the calls.
abbrev pub frames : List Event → List String
frames [] = []
frames (call_send f id ∷ es) = f ∷ frames es
frames (_ ∷ es) = frames es

-- While the current socket is open nothing waits, and the open sockets have been made.
pub record IsFlushed (t : Transport) : Type 0 where
  pub empty : (s : ℕ) → open_socket t ≡ some s → t.send_queue ≡ []
  pub made : All (λ s. s < t.sockets) t.open_sockets

payloads-append : (k l : List (ℕ × Frame)) → payloads (k ++ l) ≡ payloads k ++ payloads l
payloads-append [] l = refl
payloads-append ((s, payload f) ∷ k) l = ap (λ r. f ∷ r) (payloads-append k l)
payloads-append ((s, ping) ∷ k) l = payloads-append k l

payloads-map : (s : ℕ) (q : List String) → payloads (map (λ f. (s, payload f)) q) ≡ q
payloads-map s [] = refl
payloads-map s (f ∷ q) = ap (λ r. f ∷ r) (payloads-map s q)

same_account :
    (t u : Transport)
    → payloads u.sent ≡ payloads t.sent
    → u.send_queue ≡ t.send_queue
    → payloads u.sent ++ u.send_queue ≡ (payloads t.sent ++ t.send_queue) ++ []
same_account t u e q = rw (e, q) (sym (append-nil _))

unchanged :
    (t u : Transport)
    → u.sent ≡ t.sent
    → u.send_queue ≡ t.send_queue
    → payloads u.sent ++ u.send_queue ≡ (payloads t.sent ++ t.send_queue) ++ []
unchanged t u e q = same_account t u (ap payloads e) q

-- What a step adds to the frames sent and waiting.
accounted :
    (e : Event) (t : Transport)
    → IsFlushed t
    → payloads (step e t).sent ++ (step e t).send_queue
      ≡ (payloads t.sent ++ t.send_queue) ++ frames (e ∷ [])
unfolding step connect disconnect send ack_timeout on_open on_message on_close on_reconnect_timer
    on_heartbeat clear_timers open_connection schedule_reconnect resolve_ack
accounted (call_send frame id) t i = sending (open_socket t) refl
  where
    sending :
        (o : Option ℕ)
        → open_socket t ≡ o
        → payloads (send frame id t).sent ++ (send frame id t).send_queue
          ≡ (payloads t.sent ++ t.send_queue) ++ (frame ∷ [])
    sending none e = rw (e, send) (sym (append_assoc (payloads t.sent) t.send_queue (frame ∷ [])))
    sending (some s) e = rw (
      e,
      send,
      i.empty s e,
      payloads-append t.sent ((s, payload frame) ∷ []),
      append-nil (payloads t.sent),
      append-nil (payloads t.sent ++ (frame ∷ [])),
    )
accounted (opened s) t i = opening (ltb s t.sockets) refl
  where
    opening :
        (b : Bool)
        → ltb s t.sockets ≡ b
        → payloads (step (opened s) t).sent ++ (step (opened s) t).send_queue
          ≡ (payloads t.sent ++ t.send_queue) ++ []
    opening false e = rw (e, step) (sym (append-nil _))
    opening true e =
        rw
          (
            e,
            step,
            on_open,
            payloads-append t.sent (map (λ f. (s, payload f)) t.send_queue),
            payloads-map s t.send_queue,
          )
          refl
accounted (call_connect token) t i = sym (append-nil _)
accounted call_disconnect t i = sym (append-nil _)
accounted heartbeat t i = same_account t (on_heartbeat t) beats (ground arith)
  where
    beat : (o : Option ℕ) → open_socket t ≡ o → payloads (on_heartbeat t).sent ≡ payloads t.sent
    beat none e = ground arith
    beat (some s) e =
        let more : payloads (t.sent ++ ((s, ping) ∷ [])) ≡ payloads t.sent =
          payloads-append t.sent ((s, ping) ∷ []) ∙ append-nil (payloads t.sent) in
        ground (arith, more)

    beats : payloads (on_heartbeat t).sent ≡ payloads t.sent
    beats = beat (open_socket t) refl
accounted reconnect t i = unchanged t (on_reconnect_timer t) (ground arith) (ground arith)
accounted (timeout promise id) t i =
    unchanged t (ack_timeout promise id t) (ground arith) (ground arith)
accounted (received not_json) t i = sym (append-nil _)
accounted (received session_evicted) t i = sym (append-nil _)
accounted (received (ack id)) t i =
    unchanged t (on_message (ack id) t) (ground arith) (ground arith)
accounted (received (other f)) t i = sym (append-nil _)
accounted (closed s code random) t i =
    unchanged t (on_close s code random t) (ground arith) (ground arith)

holds-fresh : (n : ℕ) (l : List ℕ) → All (λ s. s < n) l → holds n l ≡ false
holds-fresh n [] h = refl
holds-fresh n (s ∷ l) (h, hs) = ground (arith, holds-fresh n l hs)

made-suc : (n : ℕ) (l : List ℕ) → All (λ s. s < n) l → All (λ s. s < n + 1) l
made-suc n l h = All-map (λ s (q : s < n). omega arith) l h

holds-leaving : (x s : ℕ) (l : List ℕ) → holds x (leaving s l) ≡ true → holds x l ≡ true
holds-leaving x s [] h = h
holds-leaving x s (y ∷ l) h = ground (arith, holds-leaving x s l)

-- A step that touches neither the queue nor the sockets, except to close some.
keeps :
    (t u : Transport)
    → u.send_queue ≡ t.send_queue
    → u.sockets ≡ t.sockets
    → ((s : ℕ) → open_socket u ≡ some s → open_socket t ≡ some s)
    → All (λ s. s < t.sockets) u.open_sockets
    → IsFlushed t
    → IsFlushed u
keeps t u q n o m i = record {
  empty = λ s e. q ∙ i.empty s (o s e);
  made = subst (λ k. All (λ s. s < k) u.open_sockets) (sym n) m;
}

same_open :
    (t u : Transport)
    → u.ws ≡ t.ws
    → u.open_sockets ≡ t.open_sockets
    → open_socket u ≡ open_socket t
same_open t u w o =
    λ k. elim (w k) [ none ↦ none | some s ↦ if holds s (o k) then some s else none ]

same-IsFlushed :
    (t u : Transport)
    → u.send_queue ≡ t.send_queue
    → u.sockets ≡ t.sockets
    → u.ws ≡ t.ws
    → u.open_sockets ≡ t.open_sockets
    → IsFlushed t
    → IsFlushed u
same-IsFlushed t u q n w o i =
    keeps t u q n (λ s e. sym (same_open t u w o) ∙ e)
      (subst (All (λ s. s < t.sockets)) (sym o) i.made) i

open_connection-IsFlushed : (t : Transport) → IsFlushed t → IsFlushed (open_connection t)
unfolding open_connection
open_connection-IsFlushed t i = pick t.destroyed
  where
    pick :
        (b : Bool)
        → IsFlushed (if b then t else record t { ws = some t.sockets; sockets = t.sockets + 1 })
    pick true = i
    pick false = record {
      empty = λ s e. absurd (ground (arith, holds-fresh t.sockets t.open_sockets i.made));
      made = made-suc t.sockets t.open_sockets i.made;
    }

same_made :
    (t u : Transport)
    → u.sockets ≡ t.sockets
    → u.open_sockets ≡ t.open_sockets
    → All (λ s. s < t.sockets) t.open_sockets
    → All (λ s. s < u.sockets) u.open_sockets
same_made t u n o m = coe 0 1 (k. All (λ s. s < sym n k) (sym o k)) m

send-IsFlushed : (frame id : String) (t : Transport) → IsFlushed t → IsFlushed (send frame id t)
unfolding send
send-IsFlushed frame id t i = sending (open_socket t) refl
  where
    sending : (o : Option ℕ) → open_socket t ≡ o → IsFlushed (send frame id t)
    sending none e = record {
      empty = λ s q. absurd (
          none-ne-some s
            (sym e ∙ sym (same_open t (send frame id t) (ground arith) (ground arith)) ∙ q));
      made = same_made t (send frame id t) (ground arith) (ground arith) i.made;
    }
    sending (some s) e =
        same-IsFlushed t (send frame id t) (ground arith) (ground arith) (ground arith)
          (ground arith) i

leaving-IsFlushed :
    (s : ℕ) (t u : Transport)
    → u.send_queue ≡ t.send_queue
    → u.sockets ≡ t.sockets
    → u.ws ≡ t.ws
    → u.open_sockets ≡ leaving s t.open_sockets
    → IsFlushed t
    → IsFlushed u
leaving-IsFlushed s t u q n w o i =
    keeps t u q n (λ x e. ground (arith, holds-leaving x s t.open_sockets))
      (subst (All (λ s. s < t.sockets)) (sym o)
        (All-filter (λ s. s < t.sockets) (λ x. not (nat_eq s x)) t.open_sockets i.made))
      i

step-IsFlushed : (e : Event) (t : Transport) → IsFlushed t → IsFlushed (step e t)
unfolding step connect disconnect ack_timeout on_open on_message on_close on_reconnect_timer
    on_heartbeat clear_timers schedule_reconnect resolve_ack
step-IsFlushed (call_connect token) t i =
    open_connection-IsFlushed (record t { token = token; destroyed = false })
      (record { empty = i.empty; made = i.made })
step-IsFlushed call_disconnect t i = record {
  empty = λ s e. absurd (none-ne-some s e);
  made = closing t.ws;
}
  where
    closing :
        (o : Option ℕ)
        → All
            (λ s. s < t.sockets)
            (elim o [ none ↦ t.open_sockets | some s ↦ leaving s t.open_sockets ])
    closing none = i.made
    closing (some s) = All-filter (λ s. s < t.sockets) (λ x. not (nat_eq s x)) t.open_sockets i.made
step-IsFlushed heartbeat t i =
    same-IsFlushed t (on_heartbeat t) (ground arith) (ground arith) (ground arith) (ground arith) i
step-IsFlushed reconnect t i = firing t.reconnect_timer refl
  where
    firing : (o : Option ℕ) → t.reconnect_timer ≡ o → IsFlushed (on_reconnect_timer t)
    firing none e = rw (e, on_reconnect_timer) i
    firing (some d) e =
        rw (e, on_reconnect_timer)
          (open_connection-IsFlushed (record t { reconnect_timer = none })
            (record { empty = i.empty; made = i.made }))
step-IsFlushed (call_send frame id) t i = send-IsFlushed frame id t i
step-IsFlushed (timeout promise id) t i =
    same-IsFlushed t (ack_timeout promise id t) (ground arith) (ground arith) (ground arith)
      (ground arith) i
step-IsFlushed (opened s) t i = elim (Bool-cases (ltb s t.sockets)) [
  | inl e ↦ rw e (record { empty = λ _ _. refl; made = (ground (arith, e), i.made) })
  | inr e ↦ rw e i
]
step-IsFlushed (received not_json) t i = i
step-IsFlushed (received session_evicted) t i = record { empty = i.empty; made = i.made }
step-IsFlushed (received (ack id)) t i =
    same-IsFlushed t (on_message (ack id) t) (ground arith) (ground arith) (ground arith)
      (ground arith) i
step-IsFlushed (received (other f)) t i = record { empty = i.empty; made = i.made }
step-IsFlushed (closed s code random) t i =
    leaving-IsFlushed s t (on_close s code random t) (ground arith) (ground arith) (ground arith)
      (ground arith) i

frames-append : (e : Event) (es : List Event) → frames (e ∷ es) ≡ frames (e ∷ []) ++ frames es
frames-append (call_send f id) es = refl
frames-append (call_connect token) es = refl
frames-append call_disconnect es = refl
frames-append heartbeat es = refl
frames-append reconnect es = refl
frames-append (timeout promise id) es = refl
frames-append (opened s) es = refl
frames-append (received m) es = refl
frames-append (closed s code random) es = refl

run-accounted :
    (es : List Event) (t : Transport)
    → IsFlushed t
    → payloads (run es t).sent ++ (run es t).send_queue
      ≡ (payloads t.sent ++ t.send_queue) ++ frames es
run-accounted [] t i = sym (append-nil _)
run-accounted (e ∷ es) t i =
    run-accounted es (step e t) (step-IsFlushed e t i)
    ∙ ap (λ l. l ++ frames es) (accounted e t i)
    ∙ append_assoc (payloads t.sent ++ t.send_queue) (frames (e ∷ [])) (frames es)
    ∙ ap (λ l. (payloads t.sent ++ t.send_queue) ++ l) (sym (frames-append e es))

-- In every run of a new transport, through any connections, losses and reconnections, the frames that
-- were sent, followed by those that wait, are the frames given to `send`, each once and in the
-- order of the calls.
pub run-fifo :
    (es : List Event) → payloads (run es idle).sent ++ (run es idle).send_queue ≡ frames es
run-fifo es = run-accounted es idle (record { empty = λ s e. absurd (none-ne-some s e); made = tt })
