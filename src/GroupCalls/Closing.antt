-- ===== src/GroupCalls/Closing.antt =====
-- Every connection of a group call is closed in the end.
use genchat.Base.{
  ℕ, ◌+◌, ◌<◌, String, ◌≡◌, refl, subst, ◌⊎◌, inl, inr, Option, none, some, List, [], ◌∷◌, ◌++◌,
  arith, In, In-append_left, In-append_right, lookup, remove, Distinct, insert-Distinct,
  remove-Distinct, kept, kept-insert_new, kept-insert_same, In-kept-remove, ltb, Bool-cases,
}
use genchat.GroupCalls.Ice.{
  Peer, new_peer, IceEvent, ice_step, take_candidate, described, drain, reject_candidate,
  candidate_comes, description_set, drains, candidate_rejected,
}
use genchat.GroupCalls.{
  Mesh, add_peer, exported, at_peer, handler_fails, offer_made, answer_made, candidate_found,
  track_comes, remove_peer, toggle_audio, toggle_video, start_local_stream, start_screen_share,
  stop_screen_share, poll_active_speaker, leave, speaks,
}
use genchat.GroupCalls.Steps.{
  CallEvent, adds, removes, fails, ice, key_exported, offers, answers, finds, track, mutes, hides,
  leaves, starts, shares, unshares, polls, call_step, call_run,
}

ice_step-pc : (e : IceEvent) (p : Peer) → (ice_step e p).pc ≡ p.pc
unfolding ice_step take_candidate described drain reject_candidate
ice_step-pc (candidate_comes c) p = ground arith
ice_step-pc description_set p = ground arith
ice_step-pc (drains i) p = ground arith
ice_step-pc (candidate_rejected i) p = refl

-- The connection is the connection of a peer or is closed.
abbrev Held : ℕ → Mesh → Type 0
Held n g = In n (kept (λ p. p.pc) g.peers) ⊎ In n g.closed

-- What a step keeps of a mesh: peers under distinct ids, and every connection made.
record Keeps (g h : Mesh) : Type 0 where
  distinct : Distinct g.peers → Distinct h.peers
  held : Distinct g.peers → (n : ℕ) → n < h.connections → (n < g.connections → Held n g) → Held n h

same_peers :
    (g h : Mesh)
    → h.peers ≡ g.peers
    → h.closed ≡ g.closed
    → h.connections ≡ g.connections
    → Keeps g h
same_peers g h p c k = record {
  distinct = λ d. rw p d;
  held = λ d n l q. rw (p, c) (q (subst (λ m. n < m) k l));
}

at_peer-Keeps : (id : String) (e : IceEvent) (g : Mesh) → Keeps g (at_peer id e g)
unfolding at_peer
at_peer-Keeps id e g = going (lookup id g.peers) refl
  where
    going : (o : Option Peer) → lookup id g.peers ≡ o → Keeps g (at_peer id e g)
    going none q = rw (q, at_peer) (same_peers g g refl refl refl)
    going (some p) q =
        rw (q, at_peer)
          record {
            distinct = λ d. insert-Distinct id (ice_step e p) g.peers d;
            held = λ d n l h.
                rw (kept-insert_same (λ r. r.pc) id (ice_step e p) p g.peers q (ice_step-pc e p))
                  (h l);
          }

below : (n m : ℕ) → n < m + 1 → (n ≡ m) ⊎ (n < m)
below n m h = elim (Bool-cases (ltb n m)) [
  | inl e ↦ inr (ground arith)
  | inr e ↦ inl (ground arith)
]

add_peer-Keeps : (id : String) (g : Mesh) → Keeps g (add_peer id g)
unfolding add_peer
add_peer-Keeps id g = going (lookup id g.peers) refl
  where
    newer :
        (n : ℕ)
        → (n < g.connections → Held n g)
        → (n ≡ g.connections) ⊎ (n < g.connections)
        → In n (kept (λ p. p.pc) g.peers ++ (g.connections ∷ [])) ⊎ In n g.closed
    newer n h (inl e) =
        inl (In-append_right n (kept (λ p. p.pc) g.peers) (g.connections ∷ []) (inl e))
    newer n h (inr l) = elim (h l) [
      | inl i ↦ inl (In-append_left n (kept (λ p. p.pc) g.peers) (g.connections ∷ []) i)
      | inr i ↦ inr i
    ]

    going : (o : Option Peer) → lookup id g.peers ≡ o → Keeps g (add_peer id g)
    going (some p) q = rw (q, add_peer) (same_peers g g refl refl refl)
    going none q =
        rw (q, add_peer)
          record {
            distinct = λ d. insert-Distinct id (new_peer g.connections) g.peers d;
            held = λ d n l h.
                rw (kept-insert_new (λ r. r.pc) id (new_peer g.connections) g.peers q)
                  (newer n h (below n g.connections l));
          }

-- A peer goes, and its connection is closed.
closes_peer :
    (id : String) (p : Peer) (g h : Mesh)
    → lookup id g.peers ≡ some p
    → h.peers ≡ remove id g.peers
    → h.closed ≡ g.closed ++ (p.pc ∷ [])
    → h.connections ≡ g.connections
    → Keeps g h
closes_peer id p g h e q c k = record {
  distinct = λ d. rw q (remove-Distinct id g.peers d);
  held = λ d n l known. rw (q, c) (after d n (known (subst (λ m. n < m) k l)));
}
  where
    after :
        Distinct g.peers
        → (n : ℕ) → Held n g
        → In n (kept (λ r. r.pc) (remove id g.peers)) ⊎ In n (g.closed ++ (p.pc ∷ []))
    after d n (inl i) = elim (In-kept-remove (λ r. r.pc) id p n g.peers d e i) [
      | inl r ↦ inr (In-append_right n g.closed (p.pc ∷ []) (inl r))
      | inr j ↦ inl j
    ]
    after d n (inr i) = inr (In-append_left n g.closed (p.pc ∷ []) i)

remove_peer-Keeps : (id : String) (g : Mesh) → Keeps g (remove_peer id g)
unfolding remove_peer
remove_peer-Keeps id g = going (lookup id g.peers) refl
  where
    going : (o : Option Peer) → lookup id g.peers ≡ o → Keeps g (remove_peer id g)
    going none q = rw (q, remove_peer) (same_peers g g refl refl refl)
    going (some p) q = elim (Bool-cases (speaks id g.current_active_speaker_id)) [
      | inl e ↦
          closes_peer id p g (remove_peer id g) q (rw (q, remove_peer, e) refl)
            (rw (q, remove_peer, e) refl) (rw (q, remove_peer, e) refl)
      | inr e ↦
          closes_peer id p g (remove_peer id g) q (rw (q, remove_peer, e) refl)
            (rw (q, remove_peer, e) refl) (rw (q, remove_peer, e) refl)
    ]

leave-Keeps : (g : Mesh) → Keeps g (leave g)
unfolding leave
leave-Keeps g = record {
  distinct = λ d. tt;
  held = λ d n l known. elim (known l) [
    | inl i ↦ inr (In-append_right n g.closed (kept (λ p. p.pc) g.peers) i)
    | inr i ↦ inr (In-append_left n g.closed (kept (λ p. p.pc) g.peers) i)
  ];
}

module _ (optimize_audio_sdp : String → String) where
  call_step-Keeps : (e : CallEvent) (g : Mesh) → Keeps g (call_step optimize_audio_sdp e g)
  unfolding call_step handler_fails exported offer_made answer_made candidate_found track_comes
      toggle_audio toggle_video start_local_stream start_screen_share stop_screen_share
      poll_active_speaker
  call_step-Keeps (adds id) g = add_peer-Keeps id g
  call_step-Keeps (removes id) g = remove_peer-Keeps id g
  call_step-Keeps (fails id none) g = same_peers g _ refl refl refl
  call_step-Keeps (fails id (some i)) g =
      let k = at_peer-Keeps id (candidate_rejected i) g in
      record { distinct = k.distinct; held = k.held }
  call_step-Keeps (ice id e) g = at_peer-Keeps id e g
  call_step-Keeps leaves g = leave-Keeps g
  call_step-Keeps (key_exported id key) g = same_peers g _ refl refl refl
  call_step-Keeps (offers id sdp) g = same_peers g _ refl refl refl
  call_step-Keeps (answers id sdp) g = same_peers g _ refl refl refl
  call_step-Keeps (finds id c) g = same_peers g _ refl refl refl
  call_step-Keeps (starts (a, v) has_context) g = same_peers g _ refl refl refl
  call_step-Keeps (track id is_audio) g =
      same_peers g (track_comes id is_audio g) (ground arith) (ground arith) (ground arith)
  call_step-Keeps mutes g =
      same_peers g (toggle_audio g).0 (ground arith) (ground arith) (ground arith)
  call_step-Keeps hides g =
      same_peers g (toggle_video g).0 (ground arith) (ground arith) (ground arith)
  call_step-Keeps (shares given sends) g =
      same_peers g (start_screen_share given sends g) (ground arith) (ground arith) (ground arith)
  call_step-Keeps (unshares sends) g =
      same_peers g (stop_screen_share sends g) (ground arith) (ground arith) (ground arith)
  call_step-Keeps (polls t v) g =
      same_peers g (poll_active_speaker t v g) (ground arith) (ground arith) (ground arith)

  call_run-Held :
      (es : List CallEvent) (g : Mesh)
      → Distinct g.peers
      → (n : ℕ) → n < (call_run optimize_audio_sdp es g).connections
      → (n < g.connections → Held n g)
      → Held n (call_run optimize_audio_sdp es g)
  unfolding call_run
  call_run-Held [] g d n l h = h l
  call_run-Held (e ∷ es) g d n l h =
      let k = call_step-Keeps e g in
      call_run-Held es (call_step optimize_audio_sdp e g) (k.distinct d) n l (λ m. k.held d n m h)

  -- In every run of a mesh that starts without peers and connections, through peers that come, leave and come
  -- again, calls that are left and failures: leave then has closed every connection that was ever
  -- made, and no peer is left.
  pub call_run-leave :
      (es : List CallEvent) (g : Mesh) (n : ℕ)
      → g.peers ≡ []
      → g.connections ≡ 0
      → n < (call_run optimize_audio_sdp es g).connections
      → In n (leave (call_run optimize_audio_sdp es g)).closed
        × ((leave (call_run optimize_audio_sdp es g)).peers ≡ [])
  unfolding leave
  call_run-leave es g n p c l =
      let t = call_run optimize_audio_sdp es g in
      let distinct : Distinct g.peers = rw p tt in
      let none_made : n < g.connections → Held n g = λ m. absurd (omega (arith, m, c)) in
      (closing t (call_run-Held es g distinct n l none_made), refl)
    where
      closing : (t : Mesh) → Held n t → In n (t.closed ++ kept (λ p. p.pc) t.peers)
      closing t (inl i) = In-append_right n t.closed (kept (λ p. p.pc) t.peers) i
      closing t (inr i) = In-append_left n t.closed (kept (λ p. p.pc) t.peers) i
