-- ===== src/Transport/Acks.antt =====
-- How the promises of `send` end.
use genchat.Base.{
  ℕ, String, ◌==◌, ◌≡◌, refl, ap, ◌∙◌, Bool, false, none, some, List, All, [], ◌∷◌, ◌++◌, arith,
  lookup, insert, lookup-insert, lookup-remove, eq_refl,
}
use genchat.Transport.{
  Transport, Event, acknowledged, timed_out, send, ack_timeout, resolve_ack, step, run,
  call_connect, call_disconnect, call_send, timeout, opened, received, closed, heartbeat, reconnect,
  not_json, session_evicted, ack, other, on_message, connect, disconnect, open_connection,
  clear_timers, on_open, on_close, schedule_reconnect, on_reconnect_timer, on_heartbeat,
}

send_pending :
    (frame id : String) (t : Transport)
    → (id == "") ≡ false
    → (send frame id t).pending_acks ≡ insert id t.promises t.pending_acks
unfolding send
send_pending frame id t h = ground arith

module _ (id : String) (t : Transport) where
  resolve_ack-pending :
      (p : ℕ)
      → lookup id t.pending_acks ≡ some p
      → (resolve_ack id t).settled ≡ t.settled ++ ((p, acknowledged) ∷ [])
  unfolding resolve_ack
  resolve_ack-pending p e = rw (e, resolve_ack) refl

  resolve_ack-none : lookup id t.pending_acks ≡ none → resolve_ack id t ≡ t
  unfolding resolve_ack
  resolve_ack-none e = rw (e, resolve_ack) refl

  ack_timeout-none : (p : ℕ) → lookup id t.pending_acks ≡ none → ack_timeout p id t ≡ t
  unfolding ack_timeout
  ack_timeout-none p e = rw (e, ack_timeout) refl

  ack_timeout-pending :
      (p q : ℕ)
      → lookup id t.pending_acks ≡ some q
      → (ack_timeout p id t).settled ≡ t.settled ++ ((p, timed_out) ∷ [])
  unfolding ack_timeout
  ack_timeout-pending p q e = rw (e, ack_timeout) refl

  resolve_ack-gone : lookup id (resolve_ack id t).pending_acks ≡ none
  unfolding resolve_ack
  resolve_ack-gone = ground (arith, lookup-remove id id t.pending_acks, eq_refl id)

  ack_timeout-gone : (p : ℕ) → lookup id (ack_timeout p id t).pending_acks ≡ none
  unfolding ack_timeout
  ack_timeout-gone p = ground (arith, lookup-remove id id t.pending_acks, eq_refl id)

  send-waits :
      (frame : String)
      → (id == "") ≡ false
      → lookup id (send frame id t).pending_acks ≡ some t.promises
  send-waits frame h =
      ap (lookup id) (send_pending frame id t h)
      ∙ ground (arith, lookup-insert id id t.promises t.pending_acks, eq_refl id)

-- The events that change what is kept under a client id: a send under it, its acknowledgement and a timeout.
abbrev pub touches : String → Event → Bool
touches id (call_send frame i) = i == id
touches id (timeout promise i) = i == id
touches id (received (ack i)) = i == id
touches id _ = false

abbrev pub resends : String → Event → Bool
resends id (call_send frame i) = i == id
resends id _ = false

send-kept :
    (frame i id : String) (t : Transport)
    → (i == id) ≡ false
    → lookup id (send frame i t).pending_acks ≡ lookup id t.pending_acks
unfolding send
send-kept frame i id t h = ground (arith, lookup-insert i id t.promises t.pending_acks)

ack_timeout-kept :
    (p : ℕ) (i id : String) (t : Transport)
    → (i == id) ≡ false
    → lookup id (ack_timeout p i t).pending_acks ≡ lookup id t.pending_acks
unfolding ack_timeout
ack_timeout-kept p i id t h = ground (arith, lookup-remove i id t.pending_acks)

resolve_ack-kept :
    (i id : String) (t : Transport)
    → (i == id) ≡ false
    → lookup id (resolve_ack i t).pending_acks ≡ lookup id t.pending_acks
unfolding resolve_ack
resolve_ack-kept i id t h = ground (arith, lookup-remove i id t.pending_acks)

-- A timeout or an acknowledgement never brings a promise back.
ack_timeout-none_kept :
    (p : ℕ) (i id : String) (t : Transport)
    → lookup id t.pending_acks ≡ none
    → lookup id (ack_timeout p i t).pending_acks ≡ none
unfolding ack_timeout
ack_timeout-none_kept p i id t h = ground (arith, lookup-remove i id t.pending_acks)

resolve_ack-none_kept :
    (i id : String) (t : Transport)
    → lookup id t.pending_acks ≡ none
    → lookup id (resolve_ack i t).pending_acks ≡ none
unfolding resolve_ack
resolve_ack-none_kept i id t h = ground (arith, lookup-remove i id t.pending_acks)

step-kept :
    (id : String) (e : Event) (t : Transport)
    → touches id e ≡ false
    → lookup id (step e t).pending_acks ≡ lookup id t.pending_acks
unfolding step connect disconnect open_connection clear_timers on_open on_message on_close
    schedule_reconnect on_reconnect_timer on_heartbeat
step-kept id (call_connect token) t h = ground arith
step-kept id call_disconnect t h = refl
step-kept id (call_send frame i) t h = send-kept frame i id t h
step-kept id (timeout p i) t h = ack_timeout-kept p i id t h
step-kept id (opened s) t h = ground arith
step-kept id (received not_json) t h = refl
step-kept id (received session_evicted) t h = refl
step-kept id (received (ack i)) t h = resolve_ack-kept i id t h
step-kept id (received (other f)) t h = refl
step-kept id (closed s code random) t h = ground arith
step-kept id heartbeat t h = ground arith
step-kept id reconnect t h = ground arith

step-none_kept :
    (id : String) (e : Event) (t : Transport)
    → resends id e ≡ false
    → lookup id t.pending_acks ≡ none
    → lookup id (step e t).pending_acks ≡ none
unfolding step on_message
step-none_kept id (call_connect token) t h n = step-kept id (call_connect token) t refl ∙ n
step-none_kept id call_disconnect t h n = n
step-none_kept id (call_send frame i) t h n = send-kept frame i id t h ∙ n
step-none_kept id (timeout p i) t h n = ack_timeout-none_kept p i id t n
step-none_kept id (opened s) t h n = step-kept id (opened s) t refl ∙ n
step-none_kept id (received not_json) t h n = n
step-none_kept id (received session_evicted) t h n = n
step-none_kept id (received (ack i)) t h n = resolve_ack-none_kept i id t n
step-none_kept id (received (other f)) t h n = n
step-none_kept id (closed s code random) t h n = step-kept id (closed s code random) t refl ∙ n
step-none_kept id heartbeat t h n = step-kept id heartbeat t refl ∙ n
step-none_kept id reconnect t h n = step-kept id reconnect t refl ∙ n

run-kept :
    (id : String) (es : List Event) (t : Transport)
    → All (λ e. touches id e ≡ false) es
    → lookup id (run es t).pending_acks ≡ lookup id t.pending_acks
run-kept id [] t h = refl
run-kept id (e ∷ es) t (h, hs) = run-kept id es (step e t) hs ∙ step-kept id e t h

run-none_kept :
    (id : String) (es : List Event) (t : Transport)
    → All (λ e. resends id e ≡ false) es
    → lookup id t.pending_acks ≡ none
    → lookup id (run es t).pending_acks ≡ none
run-none_kept id [] t h n = n
run-none_kept id (e ∷ es) t (h, hs) n =
    run-none_kept id es (step e t) hs (step-none_kept id e t h n)

on_message-ack :
    (id : String) (t : Transport) → (on_message (ack id) t).settled ≡ (resolve_ack id t).settled
unfolding on_message
on_message-ack id t = refl

-- A frame is sent with a client id, and whatever happens then, losses and reconnections included, it is
-- neither sent again under that id nor is its timeout over before the gateway acknowledges the id: the
-- acknowledgement settles the promise of that send as acknowledged, and no other promise. Whatever
-- happens afterwards, as long as nothing is sent under the id again, neither a second acknowledgement
-- settles anything nor does the timeout of that promise change anything.
pub send-ack_once :
    (frame id : String) (es later : List Event) (t : Transport)
    → (id == "") ≡ false
    → All (λ e. touches id e ≡ false) es
    → All (λ e. resends id e ≡ false) later
    → let u = run es (send frame id t) in
      let v = step (received (ack id)) u in
      let w = run later v in
      (v.settled ≡ u.settled ++ ((t.promises, acknowledged) ∷ []))
      × ((step (received (ack id)) w).settled ≡ w.settled)
      × (step (timeout t.promises id) w ≡ w)
unfolding step
send-ack_once frame id es later t h hs ls =
    let u = run es (send frame id t) in
    let v = step (received (ack id)) u in
    let w = run later v in
    let waits = run-kept id es (send frame id t) hs ∙ send-waits id t frame h in
    let gone = run-none_kept id later v ls (unfold on_message in resolve_ack-gone id u) in
    (
      on_message-ack id u ∙ resolve_ack-pending id u t.promises waits,
      on_message-ack id w ∙ ap (λ x. x.settled) (resolve_ack-none id w gone),
      ack_timeout-none id w t.promises gone,
    )

-- A frame that is sent again under the same client id before its acknowledgement comes: the timeout of
-- the first promise also forgets the second, which then neither an acknowledgement nor its own
-- timeout settles.
pub resend_never_settles :
    (first second id : String) (t : Transport)
    → (id == "") ≡ false
    → let u = send second id (send first id t) in
      let v = ack_timeout t.promises id u in
      (v.settled ≡ u.settled ++ ((t.promises, timed_out) ∷ []))
      × (resolve_ack id v ≡ v)
      × (ack_timeout (send first id t).promises id v ≡ v)
resend_never_settles first second id t h =
    let u = send second id (send first id t) in
    let v = ack_timeout t.promises id u in
    let gone = ack_timeout-gone id u t.promises in
    (
      ack_timeout-pending id u t.promises (send first id t).promises
          (send-waits id (send first id t) second h),
      resolve_ack-none id v gone,
      ack_timeout-none id v (send first id t).promises gone,
    )
