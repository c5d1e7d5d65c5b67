-- ===== src/Calls/Steps.antt =====
-- packages/client-web/src/lib/webrtc-manager.ts: the steps and the runs of a call between two.
use genchat.Base.{ℕ, String, Bool, Option, List, [], ◌∷◌, ◌++◌}
use genchat.Calls.{
  WebRtcManager, init_peer_connection, start_local_stream, captured, handle_offer, handle_answer,
  description_set, description_fails, add_ice_candidate, drain, track_comes, toggle_audio,
  toggle_video, hangup,
}
use genchat.Calls.Media.{CallType, Devices, acquire}

-- What the page calls, and what a connection calls back. An offer of one's own only makes the connection.
pub data CallEvent : Type 0 where
  starts offers offer_comes answer_comes described refused drains hangs_up : CallEvent
  captures : CallType → Devices → CallEvent
  candidate_comes : String → CallEvent
  track : Option (List ℕ) → ℕ → CallEvent
  mutes hides : Option Bool → CallEvent

unfoldable pub call_step : CallEvent → WebRtcManager → WebRtcManager
call_step starts m = start_local_stream m
call_step (captures kind d) m = captured (acquire kind d) m
call_step offers m = init_peer_connection m
call_step offer_comes m = handle_offer m
call_step answer_comes m = handle_answer m
call_step described m = description_set m
call_step refused m = description_fails m
call_step drains m = drain m
call_step (candidate_comes c) m = add_ice_candidate c m
call_step (track stream t) m = track_comes stream t m
call_step (mutes b) m = (toggle_audio b m).0
call_step (hides b) m = (toggle_video b m).0
call_step hangs_up m = hangup m

unfoldable pub call_run : List CallEvent → WebRtcManager → WebRtcManager
call_run [] m = m
call_run (e ∷ es) m = call_run es (call_step e m)

abbrev pub candidate_of : CallEvent → List String
candidate_of (candidate_comes c) = c ∷ []
candidate_of _ = []

abbrev pub candidates : List CallEvent → List String
candidates [] = []
candidates (e ∷ es) = candidate_of e ++ candidates es
