-- ===== src/Tests/Calls.antt =====
-- The theorems on group calls, at concrete runs.
use genchat.Base.{
  ◌+◌, ◌≤◌, All, String, ◌==◌, ◌≡◌, refl, ◌⊎◌, true, false, none, some, List, [], ◌∷◌, In, arith,
  lookup, insert, remove, amount,
}
use genchat.GroupCalls.Ice.{
  IceEvent, candidate_comes, description_set, drains, new_peer, ice_run, waiting, candidates,
  ice_step, described, is_idle, take_candidate, drain,
}
use genchat.GroupCalls.Ice.Complete.{ice_run_complete}
use genchat.GroupCalls.Ice.Overlap.{ice_run-loses_none}
use genchat.GroupCalls.{
  Mesh, leave, add_peer, remove_peer, at_peer, start_local_stream, candidate_found,
}
use genchat.GroupCalls.Steps.{CallEvent, adds, ice, removes, starts, finds, call_step, call_run}
use genchat.GroupCalls.Closing.{call_run-leave}

abbrev arrivals : List IceEvent
arrivals =
    candidate_comes "a"
    ∷ candidate_comes "b"
    ∷ description_set
    ∷ drains 0
    ∷ candidate_comes "c"
    ∷ drains 0
    ∷ drains 0
    ∷ []

ice_run_complete_example :
    let p = ice_run arrivals (new_peer 0) in
    (amount (λ c. c == "c") p.applied + amount (λ c. c == "c") (waiting p)
      ≡ amount (λ c. c == "c") (candidates arrivals))
    × ((p.applied ≡ []) ⊎ (p.remote_description ≡ true))
    × ((waiting p ≡ []) ⊎ (p.remote_description ≡ false) ⊎ (is_idle p ≡ false))
unfolding ice_step take_candidate
ice_run_complete_example =
    ice_run_complete (λ c. c == "c") arrivals 0 (tt, (tt, (tt, (tt, (tt, (tt, (tt, tt)))))))
      (tt, (tt, (refl, (tt, (tt, (tt, (tt, tt)))))))

-- A second description while the first handler takes what waited: the candidate is given twice.
abbrev overlap : List IceEvent
overlap =
    candidate_comes "a"
    ∷ description_set
    ∷ description_set
    ∷ drains 0
    ∷ drains 1
    ∷ drains 0
    ∷ drains 0
    ∷ []

overlap_test : (ice_run overlap (new_peer 0)).applied ≡ "a" ∷ "a" ∷ []
unfolding ice_run ice_step take_candidate described drain
overlap_test = refl

ice_run-loses_none_example :
    let p = ice_run overlap (new_peer 0) in
    (amount (λ c. c == "a") (candidates overlap)
      ≤ amount (λ c. c == "a") p.applied + amount (λ c. c == "a") p.pending_candidates)
    × All
        (λ l.
          amount (λ c. c == "a") (candidates overlap)
          ≤ amount (λ c. c == "a") p.applied + amount (λ c. c == "a") l)
        p.draining
    × ((p.applied ≡ []) ⊎ (p.remote_description ≡ true))
    × ((amount (λ c. c == "a") (candidates overlap) ≤ amount (λ c. c == "a") p.applied)
        ⊎ (p.remote_description ≡ false)
        ⊎ (is_idle p ≡ false))
ice_run-loses_none_example =
    ice_run-loses_none (λ c. c == "a") overlap 0 (tt, (tt, (tt, (tt, (tt, (tt, (tt, tt)))))))

abbrev empty_mesh : Mesh
empty_mesh = record {
  peers = [];
  local_stream = none;
  screen_stream = false;
  camera_video_track = false;
  group_id = some "g";
  sframe_keys = [];
  is_audio_muted = false;
  is_video_disabled = false;
  is_screen_sharing = false;
  peer_analysers = [];
  local_analyser = false;
  speaker_detection_timer = false;
  current_active_speaker_id = none;
  speakers = [];
  connections = 0;
  closed = [];
  exports = [];
  showing_screen = [];
  signals = [];
  left = [];
  errors = 0;
}

abbrev calls : List CallEvent
calls =
    starts (some true, some true) true
    ∷ adds "ann"
    ∷ adds "bob"
    ∷ ice "ann" description_set
    ∷ removes "ann"
    ∷ finds "bob" "c"
    ∷ adds "ann"
    ∷ []

abbrev as_is : String → String
as_is sdp = sdp

three_connections : (call_run as_is calls empty_mesh).connections ≡ 3
unfolding call_run call_step add_peer remove_peer at_peer start_local_stream candidate_found
    ice_step described lookup insert remove
three_connections = refl

call_run-leave_example :
    In 1 (leave (call_run as_is calls empty_mesh)).closed
    × ((leave (call_run as_is calls empty_mesh)).peers ≡ [])
call_run-leave_example =
    call_run-leave as_is calls empty_mesh 1 refl refl (omega (arith, three_connections))
