-- ===== src/Transport/Closed.antt =====
-- What happens after a disconnection: `disconnect`, or the gateway's `session_evicted`.
use genchat.Base.{ℕ, ◌≡◌, refl, ◌⊎◌, inl, inr, Bool, true, false, none, List, [], ◌∷◌, arith, All}
use genchat.Transport.{
  Transport, Event, call_connect, call_disconnect, call_send, timeout, opened, received, closed,
  heartbeat, reconnect, not_json, session_evicted, ack, other, step, run, connect, disconnect, send,
  ack_timeout, on_open, on_message, on_close, on_reconnect_timer, on_heartbeat, clear_timers,
  open_connection, schedule_reconnect, resolve_ack,
}

abbrev pub is_connect : Event → Bool
is_connect (call_connect _) = true
is_connect _ = false

-- Stopped, and with no timer armed that would connect again.
pub record IsStopped (n : ℕ) (t : Transport) : Type 0 where
  pub stopped : t.destroyed ≡ true
  pub unarmed : t.reconnect_timer ≡ none
  pub same : t.sockets ≡ n

stays :
    (n : ℕ) (e : Event) (t : Transport)
    → is_connect e ≡ false
    → IsStopped n t
    → IsStopped n (step e t)
unfolding step connect disconnect send ack_timeout on_open on_message on_close on_reconnect_timer
    on_heartbeat clear_timers open_connection schedule_reconnect resolve_ack
stays n (call_connect token) t c i = absurd (ground arith)
stays n call_disconnect t c i = record { stopped = refl; unarmed = refl; same = i.same }
stays n heartbeat t c i = record {
  stopped = ground (arith, i.stopped);
  unarmed = ground (arith, i.unarmed);
  same = ground (arith, i.same);
}
stays n reconnect t c i = record {
  stopped = ground (arith, i.stopped, i.unarmed);
  unarmed = ground (arith, i.unarmed);
  same = ground (arith, i.same, i.unarmed);
}
stays n (call_send frame id) t c i = record {
  stopped = ground (arith, i.stopped);
  unarmed = ground (arith, i.unarmed);
  same = ground (arith, i.same);
}
stays n (timeout promise id) t c i = record {
  stopped = ground (arith, i.stopped);
  unarmed = ground (arith, i.unarmed);
  same = ground (arith, i.same);
}
stays n (opened s) t c i = record {
  stopped = ground (arith, i.stopped);
  unarmed = ground (arith, i.unarmed);
  same = ground (arith, i.same);
}
stays n (received not_json) t c i = i
stays n (received session_evicted) t c i = record { stopped = refl; unarmed = refl; same = i.same }
stays n (received (ack id)) t c i = record {
  stopped = ground (arith, i.stopped);
  unarmed = ground (arith, i.unarmed);
  same = ground (arith, i.same);
}
stays n (received (other f)) t c i = record {
  stopped = i.stopped;
  unarmed = i.unarmed;
  same = i.same;
}
stays n (closed s code random) t c i = record {
  stopped = ground (arith, i.stopped);
  unarmed = ground (arith, i.stopped);
  same = ground (arith, i.same, i.stopped);
}

run-IsStopped :
    (n : ℕ) (es : List Event) (t : Transport)
    → All (λ e. is_connect e ≡ false) es
    → IsStopped n t
    → IsStopped n (run es t)
run-IsStopped n [] t c i = i
run-IsStopped n (e ∷ es) t (c, cs) i = run-IsStopped n es (step e t) cs (stays n e t c i)

-- After `disconnect` or the gateway's eviction, whatever is called and whatever calls back, no socket is
-- made and no reconnection is pending, until `connect` is called.
pub IsStopped-until_connect :
    (stop : Event) (es : List Event) (t : Transport)
    → (stop ≡ call_disconnect) ⊎ (stop ≡ received session_evicted)
    → All (λ e. is_connect e ≡ false) es
    → IsStopped t.sockets (run es (step stop t))
unfolding step disconnect on_message clear_timers
IsStopped-until_connect stop es t (inl e) c =
    run-IsStopped t.sockets es (step stop t) c
      (rw e (record { stopped = refl; unarmed = refl; same = refl }))
IsStopped-until_connect stop es t (inr e) c =
    run-IsStopped t.sockets es (step stop t) c
      (rw e (record { stopped = refl; unarmed = refl; same = refl }))
