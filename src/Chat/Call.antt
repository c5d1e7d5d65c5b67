-- ===== src/Chat/Call.antt =====
-- The call between two as the page holds it: `handleStartCall`, `handleAcceptCall`, `handleRejectCall`,
-- `handleEndCall`, the signals of a peer outside a group call, and the ring timeout. The gateway client of the page is there. A manager is its number;
-- what the two handlers await goes on in a step of its own, which may come at any time.
pub mod Candidates
use genchat.Base.{
  ℕ, suc, ◌+◌, String, ◌==◌, Bool, true, false, not, ◌&&◌, ◌||◌, Option, none, some, List, [], ◌∷◌,
  ◌++◌, if◌then◌else◌,
}

pub data CallState : Type 0 where
  idle incoming outgoing connected ended : CallState

pub record Offer : Type 0 where
  pub sdp : String
  pub call_type : String

-- A signal that is sent to the peer.
pub record CallSignal : Type 0 where
  pub signal_type : String
  pub call_id : String
  pub target_user_id : String
  pub sdp : Option String

pub record PageCall : Type 0 where
  pub call_state : CallState
  pub active_call_id : String
  pub active_call_peer_id : String
  pub call_type : String
  pub pending_offer : Option Offer
  pub pending_ice_candidates : List String
  pub webrtc : Option ℕ
  -- What is outside the page: how many managers were made, those that were hung up, the candidates that
  -- managers were given, those that were dropped, each with the latest first, and the signals sent.
  pub managers : ℕ
  pub hung_up : List ℕ
  pub given : List (ℕ × String)
  pub dropped : List String
  pub sent : List CallSignal

abbrev pub no_call : PageCall
no_call = record {
  call_state = idle;
  active_call_id = "";
  active_call_peer_id = "";
  call_type = "video";
  pending_offer = none;
  pending_ice_candidates = [];
  webrtc = none;
  managers = 0;
  hung_up = [];
  given = [];
  dropped = [];
  sent = [];
}

-- The signal that ends the active call, where there is one.
abbrev ending : String → PageCall → List CallSignal
ending signal_type c =
    if c.active_call_peer_id == "" || c.active_call_id == ""
    then []
    else record {
      signal_type = signal_type;
      call_id = c.active_call_id;
      target_user_id = c.active_call_peer_id;
      sdp = none;
    }
      ∷ []

-- The offer and the candidates are forgotten, and no call is active.
abbrev forget : PageCall → PageCall
forget c = record c {
  call_state = idle;
  active_call_id = "";
  active_call_peer_id = "";
  pending_offer = none;
  pending_ice_candidates = [];
  dropped = c.pending_ice_candidates ++ c.dropped;
}

abbrev hang_up : PageCall → PageCall
hang_up c = elim c.webrtc [
  | none ↦ c
  | some n ↦ record c { webrtc = none; hung_up = n ∷ c.hung_up }
]

unfoldable pub handle_end_call : PageCall → PageCall
handle_end_call c = forget (hang_up (record c { sent = c.sent ++ ending "hangup" c }))

unfoldable pub handle_reject_call : PageCall → PageCall
handle_reject_call c = forget (record c { sent = c.sent ++ ending "reject" c })

-- Up to the await of the servers; nothing unless the conversation is direct and there are a user and a
-- gateway client.
unfoldable pub handle_start_call : Bool → String → String → String → PageCall → PageCall
handle_start_call false call_id peer call_type c = c
handle_start_call true call_id peer call_type c = record c {
  active_call_id = call_id;
  active_call_peer_id = peer;
  call_type = call_type;
  call_state = outgoing;
}

unfoldable pub handle_accept_call : PageCall → PageCall
handle_accept_call c = elim c.pending_offer [
  | none ↦ c
  | some o ↦ record c { call_state = connected; call_type = o.call_type }
]

-- Once the servers are there: a manager is made and held.
unfoldable pub made : PageCall → PageCall
made c = record c { webrtc = some c.managers; managers = c.managers + 1 }

-- One turn of the loop of `handleAcceptCall` that drains the candidates to its manager; an empty text is
-- shifted, but not given.
unfoldable pub drained : ℕ → PageCall → PageCall
drained n c = elim c.pending_ice_candidates [
  | [] ↦ c
  | candidate ∷ candidates ↦
      if candidate == ""
      then record c { pending_ice_candidates = candidates; dropped = candidate ∷ c.dropped }
      else record c { pending_ice_candidates = candidates; given = (n, candidate) ∷ c.given }
]

-- The end of `startLocalStream` and `createOffer` or `handleOffer`: the description is sent, or the call
-- is ended.
unfoldable pub negotiated : String → String → String → Option String → PageCall → PageCall
unfolding handle_end_call
negotiated signal_type call_id peer none c = handle_end_call c
negotiated signal_type call_id peer (some sdp) c = record c {
  sent =
      c.sent
      ++ (record {
        signal_type = signal_type;
        call_id = call_id;
        target_user_id = peer;
        sdp = some sdp;
      }
          ∷ []);
}

-- `onCallSignal`, past the branches of group calls. Without its description or candidate a signal does
-- nothing.
unfoldable pub on_offer : String → String → String → String → PageCall → PageCall
on_offer call_id sender call_type sdp c = if sdp == "" then c else record c {
  pending_offer = some (record { sdp = sdp; call_type = call_type });
  active_call_id = call_id;
  active_call_peer_id = sender;
  call_type = call_type;
  call_state = incoming;
}

-- The manager is given the answer; without one the call counts as connected all the same.
unfoldable pub on_answer : String → PageCall → PageCall
on_answer sdp c = if sdp == "" then c else record c { call_state = connected }

unfoldable pub on_candidate : String → PageCall → PageCall
on_candidate candidate c = if candidate == "" then c else elim c.webrtc [
  | some n ↦ record c { given = (n, candidate) ∷ c.given }
  | none ↦ record c { pending_ice_candidates = c.pending_ice_candidates ++ (candidate ∷ []) }
]

unfoldable pub on_hangup : PageCall → PageCall
on_hangup c = forget (hang_up c)

-- After 45 seconds without an answer; the effect is set for the state, and cleared when it changes.
unfoldable pub ring_timeout : PageCall → PageCall
unfolding handle_end_call
ring_timeout c = elim c.call_state [ outgoing ↦ handle_end_call c | incoming ↦ forget c | _ ↦ c ]

-- The connection of a manager that is not hung up is established, or fails.
unfoldable pub on_connection : Bool → PageCall → PageCall
unfolding handle_end_call
on_connection true c = record c { call_state = connected }
on_connection false c = handle_end_call c

pub data PageCallEvent : Type 0 where
  starts : (ready : Bool) (call_id peer call_type : String) → PageCallEvent
  accepts rejects ends : PageCallEvent
  servers_come : PageCallEvent
  drains : (manager : ℕ) → PageCallEvent
  negotiates : (signal_type call_id peer : String) (sdp : Option String) → PageCallEvent
  offer_comes : (call_id sender call_type sdp : String) → PageCallEvent
  answer_comes candidate_comes : String → PageCallEvent
  hangup_comes rings_out : PageCallEvent
  connection : Bool → PageCallEvent

unfoldable pub page_call_step : PageCallEvent → PageCall → PageCall
page_call_step (starts ready id peer kind) c = handle_start_call ready id peer kind c
page_call_step accepts c = handle_accept_call c
page_call_step rejects c = handle_reject_call c
page_call_step ends c = handle_end_call c
page_call_step servers_come c = made c
page_call_step (drains n) c = drained n c
page_call_step (negotiates kind id peer sdp) c = negotiated kind id peer sdp c
page_call_step (offer_comes id sender kind sdp) c = on_offer id sender kind sdp c
page_call_step (answer_comes sdp) c = on_answer sdp c
page_call_step (candidate_comes candidate) c = on_candidate candidate c
page_call_step hangup_comes c = on_hangup c
page_call_step rings_out c = ring_timeout c
page_call_step (connection up) c = on_connection up c

unfoldable pub page_call_run : List PageCallEvent → PageCall → PageCall
unfolding page_call_step
page_call_run [] c = c
page_call_run (e ∷ es) c = page_call_run es (page_call_step e c)
