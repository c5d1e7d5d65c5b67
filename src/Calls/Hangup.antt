-- ===== src/Calls/Hangup.antt =====
-- packages/client-web/src/lib/webrtc-manager.ts: what hanging up leaves of a call between two.
use genchat.Base.{
  ℕ, ◌<◌, ◌≡◌, refl, Bool, true, false, Option, none, some, List, [], ◌∷◌, arith, nat_eq, ◌||◌,
}
use genchat.Calls.{
  WebRtcManager, new_manager, init_peer_connection, start_local_stream, captured, handle_offer,
  handle_answer, description_set, description_fails, add_ice_candidate, drain, track_comes,
  toggle_audio, toggle_video, hangup, local_tracks,
}
use genchat.Calls.Steps.{
  CallEvent, starts, offers, offer_comes, answer_comes, described, refused, drains, hangs_up,
  captures, candidate_comes, track, mutes, hides, call_step, call_run,
}
use genchat.Calls.Candidates.{has}

abbrev is_pc : Option ℕ → ℕ → Bool
is_pc none n = false
is_pc (some k) n = nat_eq k n

-- A connection that was made is the one in use or is closed.
abbrev accounted : WebRtcManager → ℕ → Bool
accounted m n = is_pc m.pc n || has m.closed n

abbrev Accounted : ℕ → WebRtcManager → Type 0
Accounted n m = n < m.connections → accounted m n ≡ true

call_step-Accounted :
    (n : ℕ) (e : CallEvent) (m : WebRtcManager) → Accounted n m → Accounted n (call_step e m)
unfolding call_step start_local_stream captured init_peer_connection handle_offer handle_answer
    description_set description_fails add_ice_candidate drain track_comes toggle_audio toggle_video
    hangup
call_step-Accounted n starts m h l = ground arith
call_step-Accounted n (captures kind d) m h l = ground arith
call_step-Accounted n offers m h l = ground arith
call_step-Accounted n offer_comes m h l = ground arith
call_step-Accounted n answer_comes m h l = ground arith
call_step-Accounted n described m h l = ground arith
call_step-Accounted n refused m h l = ground arith
call_step-Accounted n drains m h l = ground arith
call_step-Accounted n (candidate_comes c) m h l = ground arith
call_step-Accounted n (track stream t) m h l = ground arith
call_step-Accounted n (mutes b) m h l = ground arith
call_step-Accounted n (hides b) m h l = ground arith
call_step-Accounted n hangs_up m h l = ground arith

call_run-Accounted :
    (n : ℕ) (es : List CallEvent) (m : WebRtcManager) → Accounted n m → Accounted n (call_run es m)
unfolding call_run
call_run-Accounted n [] m h = h
call_run-Accounted n (e ∷ es) m h =
    call_run-Accounted n es (call_step e m) (call_step-Accounted n e m h)

-- Hanging up after any run has closed every connection that was ever made, and leaves neither a connection nor a
-- stream.
pub call_run-hangup :
    (es : List CallEvent) (n : ℕ)
    → n < (call_run es new_manager).connections
    → let m = hangup (call_run es new_manager) in
      (has m.closed n ≡ true) × (m.pc ≡ none) × (local_tracks m.local_stream ≡ [])
unfolding hangup
call_run-hangup es n h =
    let a = call_run-Accounted n es new_manager (λ l. elim l [ ]) h in (ground arith, refl, refl)
