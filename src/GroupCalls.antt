-- ===== src/GroupCalls.antt =====
-- packages/client-web/src/lib/group-webrtc-manager.ts: `GroupWebRtcManager`, the mesh of a group call. What
-- the code awaits of a connection is a step of its own. Callbacks of a connection that was removed
-- while they were awaited are not taken up. Media streams are tracks that are live or stopped;
-- `optimizeAudioSdp`, which rewrites a description, is a parameter.
pub mod Ice
pub mod Speaker
pub mod Steps
pub mod Closing
use genchat.Base.{
  ℕ, suc, ◌+◌, String, ◌==◌, Bool, true, false, not, Option, none, some, List, [], ◌∷◌, ◌++◌,
  if◌then◌else◌, lookup, insert, remove, map, filter, any,
}
use genchat.GroupCalls.Speaker.{loudest}
use genchat.GroupCalls.Ice.{
  Peer, new_peer, IceEvent, ice_step, candidate_comes, description_set, drains, candidate_rejected,
}

pub data Signal : Type 0 where
  offer answer ice_candidate : String → String → Signal

-- A local track: whether it is enabled. What is stopped is not there any more.
pub record Mesh : Type 0 where
  pub peers : List (String × Peer)
  -- Of the local stream, where there is one, its audio and video tracks, and whether each is enabled.
  pub local_stream : Option (Option Bool × Option Bool)
  pub screen_stream : Bool
  pub camera_video_track : Bool
  pub group_id : Option String
  pub sframe_keys : List (String × (String × String))
  pub is_audio_muted : Bool
  pub is_video_disabled : Bool
  pub is_screen_sharing : Bool
  -- The peers that have an analyser, and whether there is one of the local stream.
  pub peer_analysers : List String
  pub local_analyser : Bool
  pub speaker_detection_timer : Bool
  pub current_active_speaker_id : Option String
  -- What is outside the object: the speakers reported, the connections made and those that are closed, the peers whose keys were
  -- asked of MlsGroupManager, the peers to whose connection the screen was given in place of the
  -- camera, the signals sent, the peers reported to have left, and the errors reported.
  pub speakers : List (Option String)
  pub connections : ℕ
  pub closed : List ℕ
  pub exports : List String
  pub showing_screen : List String
  pub signals : List Signal
  pub left : List String
  pub errors : ℕ

unfoldable pub add_peer : String → Mesh → Mesh
add_peer id g = elim (lookup id g.peers) [
  | some p ↦ g
  | none ↦ record g {
    peers = insert id (new_peer g.connections) g.peers;
    connections = g.connections + 1;
    exports = elim g.group_id [ none ↦ g.exports | some group ↦ g.exports ++ (id ∷ []) ];
  }
]

-- `exportGroupMediaKey` has given the key and the salt of a peer.
unfoldable pub exported : String → String × String → Mesh → Mesh
exported id key g = record g { sframe_keys = insert id key g.sframe_keys }

unfoldable pub get_peer_sframe_key : String → Mesh → Option (String × String)
get_peer_sframe_key id g = lookup id g.sframe_keys

unfoldable pub is_sframe_secured : String → Mesh → Bool
is_sframe_secured id g = elim (lookup id g.sframe_keys) [ none ↦ false | some key ↦ true ]

-- A step of the connection to a peer, if there is one.
unfoldable pub at_peer : String → IceEvent → Mesh → Mesh
at_peer id e g = elim (lookup id g.peers) [
  | none ↦ g
  | some p ↦ record g { peers = insert id (ice_step e p) g.peers }
]

unfoldable pub handle_ice_candidate : String → String → Mesh → Mesh
handle_ice_candidate id c g = at_peer id (candidate_comes c) g

-- `handleOffer` up to its first await.
unfoldable pub handle_offer : String → Mesh → Mesh
handle_offer id g = add_peer id g

-- The `catch` of a handler whose connection rejects what it awaits, in a loop over what waited or not.
unfoldable pub handler_fails : String → Option ℕ → Mesh → Mesh
handler_fails id none g = record g { errors = g.errors + 1 }
handler_fails id (some i) g = record (at_peer id (candidate_rejected i) g) { errors = g.errors + 1 }

module _ (optimize_audio_sdp : String → String) where
  -- The offer of an initiator, and the answer to an offer, once they are the local description.
  unfoldable pub offer_made : String → String → Mesh → Mesh
  offer_made id sdp g = record g { signals = g.signals ++ (offer id (optimize_audio_sdp sdp) ∷ []) }

  unfoldable pub answer_made : String → String → Mesh → Mesh
  answer_made id sdp g = record g {
    signals = g.signals ++ (answer id (optimize_audio_sdp sdp) ∷ []);
  }

-- `pc.onicecandidate`
unfoldable pub candidate_found : String → String → Mesh → Mesh
candidate_found id c g = record g { signals = g.signals ++ (ice_candidate id c ∷ []) }

-- `set` of a map keeps the place of a key that is there.
abbrev with_analyser : String → List String → List String
with_analyser id ids = if any (λ x. x == id) ids then ids else ids ++ (id ∷ [])

-- `pc.ontrack`, with `attachPeerAudioAnalyser` for an audio track while there is an audio context
unfoldable pub track_comes : String → Bool → Mesh → Mesh
track_comes id is_audio g =
    if is_audio
    then if g.speaker_detection_timer
      then record g { peer_analysers = with_analyser id g.peer_analysers }
      else g
    else g

abbrev pub speaks : String → Option String → Bool
speaks id none = false
speaks id (some speaker) = speaker == id

-- The active speaker changes, and the change is reported.
abbrev change_speaker : Option String → Mesh → Mesh
change_speaker speaker g = record g {
  current_active_speaker_id = speaker;
  speakers = g.speakers ++ (speaker ∷ []);
}

unfoldable pub remove_peer : String → Mesh → Mesh
remove_peer id g = elim (lookup id g.peers) [
  | none ↦ g
  | some p ↦
      let g' = record g {
        closed = g.closed ++ (p.pc ∷ []);
        peers = remove id g.peers;
        peer_analysers = filter (λ x. not (x == id)) g.peer_analysers;
        left = g.left ++ (id ∷ []);
      } in
      if speaks id g.current_active_speaker_id then change_speaker none g' else g'
]

unfoldable pub toggle_audio : Mesh → Mesh × Bool
toggle_audio g = elim g.local_stream [
  | none ↦ (g, false)
  | some (none, video) ↦ (g, g.is_audio_muted)
  | some (some enabled, video) ↦ (
    record g { local_stream = some (some (not enabled), video); is_audio_muted = enabled },
    enabled,
  )
]

unfoldable pub toggle_video : Mesh → Mesh × Bool
toggle_video g = elim g.local_stream [
  | none ↦ (g, false)
  | some (audio, none) ↦ (g, g.is_video_disabled)
  | some (audio, some enabled) ↦ (
    record g { local_stream = some (audio, some (not enabled)); is_video_disabled = enabled },
    enabled,
  )
]

-- The stream that was acquired, with its tracks, and whether there is an audio context.
unfoldable pub start_local_stream : Option Bool × Option Bool → Bool → Mesh → Mesh
start_local_stream (audio, video) has_context g = record g {
  local_stream = some (audio, video);
  camera_video_track = elim video [ none ↦ g.camera_video_track | some enabled ↦ true ];
  local_analyser =
      if has_context
      then elim audio [ none ↦ g.local_analyser | some enabled ↦ true ]
      else g.local_analyser;
  speaker_detection_timer = if has_context then true else g.speaker_detection_timer;
}

abbrev ids : List (String × Peer) → List String
ids ps = map (λ e. e.0) ps

-- Whether the screen was given with a video track; each peer that has a sender of video gets it.
unfoldable pub start_screen_share : Bool → (String → Bool) → Mesh → Mesh
start_screen_share given sends_video g =
    if given
    then record g {
      screen_stream = true;
      is_screen_sharing = true;
      showing_screen = filter sends_video (ids g.peers);
    }
    else g

unfoldable pub stop_screen_share : (String → Bool) → Mesh → Mesh
stop_screen_share sends_video g =
    if g.is_screen_sharing
    then record g {
      screen_stream = false;
      is_screen_sharing = false;
      showing_screen =
          if g.camera_video_track
          then filter (λ id. not (sends_video id)) g.showing_screen
          else g.showing_screen;
    }
    else g

unfoldable pub get_connected_peer_ids : Mesh → List String
get_connected_peer_ids g = ids g.peers

abbrev same_speaker : Option String → Option String → Bool
same_speaker none none = true
same_speaker (some a) (some b) = a == b
same_speaker _ _ = false

abbrev volumes : (String → ℕ) → Mesh → List (String × ℕ)
volumes volume_of g =
    (if g.local_analyser
      then if g.is_audio_muted then [] else ("local", volume_of "local") ∷ []
      else [])
    ++ map (λ id. (id, volume_of id)) g.peer_analysers

unfoldable pub poll_active_speaker : ℕ → (String → ℕ) → Mesh → Mesh
poll_active_speaker threshold volume_of g =
    let speaker = loudest threshold (volumes volume_of g) in
    if same_speaker speaker g.current_active_speaker_id then g else change_speaker speaker g

unfoldable pub leave : Mesh → Mesh
leave g = record g {
  speaker_detection_timer = false;
  local_analyser = false;
  peer_analysers = [];
  local_stream = none;
  screen_stream = false;
  closed = g.closed ++ map (λ e. e.1.pc) g.peers;
  peers = [];
}
