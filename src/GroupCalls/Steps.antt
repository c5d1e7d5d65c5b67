-- ===== src/GroupCalls/Steps.antt =====
-- packages/client-web/src/lib/group-webrtc-manager.ts: the steps and the runs of a group call.
use genchat.Base.{ℕ, String, Bool, Option, List, [], ◌∷◌}
use genchat.GroupCalls.Ice.{IceEvent}
use genchat.GroupCalls.{
  Mesh, add_peer, exported, at_peer, handler_fails, offer_made, answer_made, candidate_found,
  track_comes, remove_peer, toggle_audio, toggle_video, start_local_stream, start_screen_share,
  stop_screen_share, poll_active_speaker, leave,
}

-- What a caller and the connections do to a mesh.
pub data CallEvent : Type 0 where
  adds removes : String → CallEvent
  -- With the loop that the handler is in, if it is in one.
  fails : String → Option ℕ → CallEvent
  ice : String → IceEvent → CallEvent
  key_exported : String → String × String → CallEvent
  offers answers finds : String → String → CallEvent
  track : String → Bool → CallEvent
  mutes hides leaves : CallEvent
  starts : Option Bool × Option Bool → Bool → CallEvent
  shares : Bool → (String → Bool) → CallEvent
  unshares : (String → Bool) → CallEvent
  polls : ℕ → (String → ℕ) → CallEvent

module _ (optimize_audio_sdp : String → String) where
  unfoldable pub call_step : CallEvent → Mesh → Mesh
  call_step (adds id) g = add_peer id g
  call_step (removes id) g = remove_peer id g
  call_step (fails id i) g = handler_fails id i g
  call_step (ice id e) g = at_peer id e g
  call_step (key_exported id key) g = exported id key g
  call_step (offers id sdp) g = offer_made optimize_audio_sdp id sdp g
  call_step (answers id sdp) g = answer_made optimize_audio_sdp id sdp g
  call_step (finds id c) g = candidate_found id c g
  call_step (track id is_audio) g = track_comes id is_audio g
  call_step mutes g = (toggle_audio g).0
  call_step hides g = (toggle_video g).0
  call_step leaves g = leave g
  call_step (starts tracks has_context) g = start_local_stream tracks has_context g
  call_step (shares given sends) g = start_screen_share given sends g
  call_step (unshares sends) g = stop_screen_share sends g
  call_step (polls threshold volume_of) g = poll_active_speaker threshold volume_of g

  unfoldable pub call_run : List CallEvent → Mesh → Mesh
  call_run [] g = g
  call_run (e ∷ es) g = call_run es (call_step e g)
