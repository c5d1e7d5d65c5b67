-- ===== src/GroupCalls/Ice.antt =====
-- packages/client-web/src/lib/group-webrtc-manager.ts: the connection to one peer of a group call, and its ICE
-- candidates, which wait until the remote description is set. A handler awaits every candidate that
-- it takes from those that wait; candidates and further descriptions may arrive in between, and each
-- description starts a loop of its own over what waits.
pub mod Complete
pub mod Overlap
use genchat.Base.{
  ℕ, zero, suc, ◌+◌, String, ◌≡◌, ◌⊎◌, refl, sym, ap, ◌∙◌, Bool, true, false, not, ◌&&◌, ◌||◌,
  Option, none, some, List, [], ◌∷◌, ◌++◌, if◌then◌else◌, arith, All,
}

pub record Peer : Type 0 where
  -- The connection, by its number.
  pub pc : ℕ
  pub pending_candidates : List String
  pub is_remote_description_set : Bool
  -- `pc.remoteDescription` is there.
  pub remote_description : Bool
  -- The loops under way, the first to begin first: the candidates that each has yet to take.
  pub draining : List (List String)
  -- The candidates that the connection was given.
  pub applied : List String

abbrev pub new_peer : ℕ → Peer
new_peer pc = record {
  pc = pc;
  pending_candidates = [];
  is_remote_description_set = false;
  remote_description = false;
  draining = [];
  applied = [];
}

-- `handleIceCandidate` for a known peer. The connection is given the candidate, whether it takes it or not.
unfoldable pub take_candidate : String → Peer → Peer
take_candidate c p =
    if p.is_remote_description_set && p.remote_description
    then record p { applied = p.applied ++ (c ∷ []) }
    else record p { pending_candidates = p.pending_candidates ++ (c ∷ []) }

abbrev pub start_drain : List String → Peer → Peer
start_drain [] p = p
start_drain cs p = record p { draining = p.draining ++ (cs ∷ []) }

-- `setRemoteDescription` has succeeded.
unfoldable pub described : Peer → Peer
described p =
    start_drain p.pending_candidates
      (record p { remote_description = true; is_remote_description_set = true })

-- The loop at a place, what it has yet to take changed, and the loops without it.
abbrev pub loop_at : ℕ → List (List String) → Option (List String)
loop_at i [] = none
loop_at zero (l ∷ ls) = some l
loop_at (suc i) (l ∷ ls) = loop_at i ls

abbrev pub set_loop : ℕ → List String → List (List String) → List (List String)
set_loop i cs [] = []
set_loop zero cs (l ∷ ls) = cs ∷ ls
set_loop (suc i) cs (l ∷ ls) = l ∷ set_loop i cs ls

abbrev pub drop_loop : ℕ → List (List String) → List (List String)
drop_loop i [] = []
drop_loop zero (l ∷ ls) = ls
drop_loop (suc i) (l ∷ ls) = l ∷ drop_loop i ls

-- The next candidate that a loop takes, or its end, which forgets those that wait.
unfoldable pub drain : ℕ → Peer → Peer
drain i p = elim (loop_at i p.draining) [
  | none ↦ p
  | some [] ↦ record p { draining = drop_loop i p.draining; pending_candidates = [] }
  | some (c ∷ cs) ↦ record p {
    draining = set_loop i cs p.draining;
    applied = p.applied ++ (c ∷ []);
  }
]

-- The connection rejects the candidate that a loop just gave it: its handler ends with an error.
unfoldable pub reject_candidate : ℕ → Peer → Peer
reject_candidate i p = record p { draining = drop_loop i p.draining }

pub data IceEvent : Type 0 where
  candidate_comes : String → IceEvent
  description_set : IceEvent
  drains : ℕ → IceEvent
  candidate_rejected : ℕ → IceEvent

unfoldable pub ice_step : IceEvent → Peer → Peer
ice_step (candidate_comes c) p = take_candidate c p
ice_step description_set p = described p
ice_step (drains i) p = drain i p
ice_step (candidate_rejected i) p = reject_candidate i p

unfoldable pub ice_run : List IceEvent → Peer → Peer
ice_run [] p = p
ice_run (e ∷ es) p = ice_run es (ice_step e p)

abbrev pub candidate_of : IceEvent → List String
candidate_of (candidate_comes c) = c ∷ []
candidate_of _ = []

abbrev pub candidates : List IceEvent → List String
candidates [] = []
candidates (e ∷ es) = candidate_of e ++ candidates es

abbrev pub IsTaken : IceEvent → Type 0
IsTaken (candidate_rejected i) = ⊥
IsTaken _ = Unit

-- No candidate that waits is rejected.
abbrev pub AllTaken : List IceEvent → Type 0
AllTaken es = All IsTaken es

-- The candidates that the connection was not given yet, by the first loop if there is one.
abbrev pub waiting : Peer → List String
waiting p = elim p.draining [ [] ↦ p.pending_candidates | l ∷ ls ↦ l ]

abbrev pub is_idle : Peer → Bool
is_idle p = elim p.draining [ [] ↦ true | l ∷ ls ↦ false ]

-- In a run, a description is set only while no loop is under way.
abbrev TakesTurn : IceEvent → Peer → Type 0
TakesTurn description_set p = is_idle p ≡ true
TakesTurn _ p = Unit

abbrev pub InTurn : List IceEvent → Peer → Type 0
InTurn [] p = Unit
InTurn (e ∷ es) p = TakesTurn e p × InTurn es (ice_step e p)
