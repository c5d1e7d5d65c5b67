-- ===== src/Calls.antt =====
-- packages/client-web/src/lib/webrtc-manager.ts: `WebRtcManager`, a call between two. What the code awaits of
-- a connection is a step of its own; a connection that is closed settles no promise and calls nothing
-- back. A connection and a track are their numbers.
pub mod Sdp
pub mod Media
pub mod Servers
pub mod Steps
pub mod Candidates
pub mod Hangup
use genchat.Base.{
  ℕ, zero, suc, ◌+◌, String, Bool, true, false, not, Option, none, some, List, [], ◌∷◌, ◌++◌, any,
  nat_eq, if◌then◌else◌,
}

pub record Track : Type 0 where
  pub id : ℕ
  pub enabled : Bool

pub record WebRtcManager : Type 0 where
  pub pc : Option ℕ
  -- The audio and the video track of the local stream, and the tracks of the remote one.
  pub local_stream : Option (Option Track × Option Track)
  pub remote_stream : Option (List ℕ)
  pub pending_candidates : List String
  pub is_remote_description_set : Bool
  pub is_audio_muted : Bool
  pub is_video_disabled : Bool
  -- What is awaited: streams, remote descriptions of the connection, and candidates in loops that drain.
  pub capturing : ℕ
  pub describing : ℕ
  pub draining : ℕ
  -- What is outside the object: how many connections were made, those that are closed, those that have a remote
  -- description, the tracks that are stopped, the candidates that connections were given, and those
  -- that were dropped by hanging up.
  pub connections : ℕ
  pub closed : List ℕ
  pub described : List ℕ
  pub stopped : List ℕ
  pub applied : List (ℕ × String)
  pub dropped : List String

abbrev pub new_manager : WebRtcManager
new_manager = record {
  pc = none;
  local_stream = none;
  remote_stream = none;
  pending_candidates = [];
  is_remote_description_set = false;
  is_audio_muted = false;
  is_video_disabled = false;
  capturing = 0;
  describing = 0;
  draining = 0;
  connections = 0;
  closed = [];
  described = [];
  stopped = [];
  applied = [];
  dropped = [];
}

unfoldable pub init_peer_connection : WebRtcManager → WebRtcManager
init_peer_connection m = elim m.pc [
  | some n ↦ m
  | none ↦ record m {
    pc = some m.connections;
    connections = m.connections + 1;
    remote_stream = some [];
  }
]

-- `startLocalStream` up to what it awaits.
unfoldable pub start_local_stream : WebRtcManager → WebRtcManager
start_local_stream m = elim m.local_stream [
  | some s ↦ m
  | none ↦ record m { capturing = m.capturing + 1 }
]

abbrev pub live : Option ℕ → Option Track
live none = none
live (some id) = some (record { id = id; enabled = true })

-- The tracks are acquired, or none are.
unfoldable pub captured : Option (Option ℕ × Option ℕ) → WebRtcManager → WebRtcManager
captured tracks m = elim m.capturing [
  | zero ↦ m
  | suc n ↦ elim tracks [
    | none ↦ record m { capturing = n }
    | some (audio, video) ↦ record m { capturing = n; local_stream = some (live audio, live video) }
  ]
]

-- `handleOffer` and `handleAnswer` up to `setRemoteDescription`.
unfoldable pub handle_offer : WebRtcManager → WebRtcManager
unfolding init_peer_connection
handle_offer m = let m' = init_peer_connection m in record m' { describing = m'.describing + 1 }

unfoldable pub handle_answer : WebRtcManager → WebRtcManager
handle_answer m = elim m.pc [ none ↦ m | some n ↦ record m { describing = m.describing + 1 } ]

-- The remote description of the connection is set: `drainPendingCandidates` begins.
unfoldable pub description_set : WebRtcManager → WebRtcManager
description_set m = elim m.describing [
  | zero ↦ m
  | suc k ↦ elim m.pc [
    | none ↦ m
    | some n ↦ record m {
      describing = k;
      described = n ∷ m.described;
      is_remote_description_set = true;
      draining = m.draining + 1;
    }
  ]
]

unfoldable pub description_fails : WebRtcManager → WebRtcManager
description_fails m = elim m.describing [ zero ↦ m | suc k ↦ record m { describing = k } ]

-- A connection is given a candidate, whether it takes it or not.
abbrev give : ℕ → String → WebRtcManager → WebRtcManager
give n c m = record m { applied = (n, c) ∷ m.applied }

unfoldable pub add_ice_candidate : String → WebRtcManager → WebRtcManager
add_ice_candidate c m = elim m.pc [
  | none ↦ record m { pending_candidates = m.pending_candidates ++ (c ∷ []) }
  | some n ↦
      if m.is_remote_description_set
      then give n c m
      else record m { pending_candidates = m.pending_candidates ++ (c ∷ []) }
]

-- The first candidate that waits, or the end of a loop. Where there is no connection any more the
-- exception is caught, and the candidate is gone.
unfoldable pub drain : WebRtcManager → WebRtcManager
drain m = elim m.draining [
  | zero ↦ m
  | suc k ↦ elim m.pending_candidates [
    | [] ↦ record m { draining = k }
    | c ∷ cs ↦
        let m' = record m { pending_candidates = cs } in
        elim m.pc [ none ↦ record m' { dropped = c ∷ m.dropped } | some n ↦ give n c m' ]
  ]
]

-- `pc.ontrack`, with the first stream of the event.
unfoldable pub track_comes : Option (List ℕ) → ℕ → WebRtcManager → WebRtcManager
track_comes stream track m = elim m.pc [
  | none ↦ m
  | some n ↦ elim stream [
    | some tracks ↦ record m { remote_stream = some tracks }
    | none ↦ elim m.remote_stream [
      | none ↦ record m { remote_stream = some (track ∷ []) }
      | some tracks ↦
          if any (nat_eq track) tracks
          then m
          else record m { remote_stream = some (tracks ++ (track ∷ [])) }
    ]
  ]
]

abbrev chosen : Option Bool → Bool → Bool
chosen none now = not now
chosen (some b) now = b

unfoldable pub toggle_audio : Option Bool → WebRtcManager → WebRtcManager × Bool
toggle_audio muted m = elim m.local_stream [
  | some (some audio, video) ↦
      let b = chosen muted m.is_audio_muted in
      (
        record m {
          is_audio_muted = b;
          local_stream = some (some (record audio { enabled = not b }), video);
        },
        b,
      )
  | _ ↦ (m, false)
]

unfoldable pub toggle_video : Option Bool → WebRtcManager → WebRtcManager × Bool
toggle_video disabled m = elim m.local_stream [
  | some (audio, some video) ↦
      let b = chosen disabled m.is_video_disabled in
      (
        record m {
          is_video_disabled = b;
          local_stream = some (audio, some (record video { enabled = not b }));
        },
        b,
      )
  | _ ↦ (m, false)
]

abbrev ids_of : Option Track → List ℕ
ids_of none = []
ids_of (some t) = t.id ∷ []

abbrev pub local_tracks : Option (Option Track × Option Track) → List ℕ
local_tracks none = []
local_tracks (some (audio, video)) = ids_of audio ++ ids_of video

abbrev pub remote_tracks : Option (List ℕ) → List ℕ
remote_tracks none = []
remote_tracks (some tracks) = tracks

abbrev pub number_of : Option ℕ → List ℕ
number_of none = []
number_of (some n) = n ∷ []

-- What the closed connection was asked for is never settled.
unfoldable pub hangup : WebRtcManager → WebRtcManager
hangup m = record m {
  stopped = local_tracks m.local_stream ++ (remote_tracks m.remote_stream ++ m.stopped);
  local_stream = none;
  remote_stream = none;
  closed = number_of m.pc ++ m.closed;
  pc = none;
  dropped = m.pending_candidates ++ m.dropped;
  pending_candidates = [];
  is_remote_description_set = false;
  is_audio_muted = false;
  is_video_disabled = false;
  describing = 0;
  draining = 0;
}
