-- ===== src/Calls/Candidates.antt =====
-- packages/client-web/src/lib/webrtc-manager.ts: the candidates of a call between two.
use genchat.Base.{
  ℕ, zero, suc, ◌+◌, String, ◌≡◌, refl, ap, ◌∙◌, Bool, true, false, ◌&&◌, Option, none, some, List,
  [], ◌∷◌, map, if◌then◌else◌, arith, All, any, nat_eq, amount, amount-append,
}
use genchat.Calls.{
  WebRtcManager, new_manager, init_peer_connection, start_local_stream, captured, handle_offer,
  handle_answer, description_set, description_fails, add_ice_candidate, drain, track_comes,
  toggle_audio, toggle_video, hangup,
}
use genchat.Calls.Steps.{
  CallEvent, starts, offers, offer_comes, answer_comes, described, refused, drains, hangs_up,
  captures, candidate_comes, track, mutes, hides, call_step, call_run, candidate_of, candidates,
}

abbrev pub has : List ℕ → ℕ → Bool
has done n = any (nat_eq n) done

abbrev is_ready : Option ℕ → List ℕ → Bool
is_ready none done = false
is_ready (some n) done = has done n

abbrev is_zero : ℕ → Bool
is_zero zero = true
is_zero (suc n) = false

-- The flag is set only while there is a connection with a remote description, and a loop that drains is under way
-- only while it is set.
abbrev sound : WebRtcManager → Bool
sound m = if m.is_remote_description_set then is_ready m.pc m.described else is_zero m.draining

abbrev IsSound : WebRtcManager → Type 0
IsSound m = sound m ≡ true

call_step-IsSound : (e : CallEvent) (m : WebRtcManager) → IsSound m → IsSound (call_step e m)
unfolding call_step start_local_stream captured init_peer_connection handle_offer handle_answer
    description_set description_fails add_ice_candidate drain track_comes toggle_audio toggle_video
    hangup
call_step-IsSound starts m s = ground arith
call_step-IsSound (captures kind d) m s = ground arith
call_step-IsSound offers m s = ground arith
call_step-IsSound offer_comes m s = ground arith
call_step-IsSound answer_comes m s = ground arith
call_step-IsSound described m s = ground arith
call_step-IsSound refused m s = ground arith
call_step-IsSound drains m s = ground arith
call_step-IsSound (candidate_comes c) m s = ground arith
call_step-IsSound (track stream t) m s = ground arith
call_step-IsSound (mutes b) m s = ground arith
call_step-IsSound (hides b) m s = ground arith
call_step-IsSound hangs_up m s = refl

abbrev pub text_of : ℕ × String → String
text_of (n, c) = c

-- The candidates that were given to a connection, that wait, and that were dropped.
abbrev total : (String → Bool) → WebRtcManager → ℕ
total f m = amount f (map text_of m.applied) + amount f m.pending_candidates + amount f m.dropped

call_step-total :
    (f : String → Bool) (e : CallEvent) (m : WebRtcManager)
    → total f (call_step e m) ≡ total f m + amount f (candidate_of e)
unfolding call_step start_local_stream captured init_peer_connection handle_offer handle_answer
    description_set description_fails add_ice_candidate drain track_comes toggle_audio toggle_video
    hangup
call_step-total f starts m = ground arith
call_step-total f (captures kind d) m = ground arith
call_step-total f offers m = ground arith
call_step-total f offer_comes m = ground arith
call_step-total f answer_comes m = ground arith
call_step-total f described m = ground arith
call_step-total f refused m = ground arith
call_step-total f drains m = ground arith
call_step-total f (candidate_comes c) m =
    ground (arith, amount-append f m.pending_candidates (c ∷ []))
call_step-total f (track stream t) m = ground arith
call_step-total f (mutes b) m = ground arith
call_step-total f (hides b) m = ground arith
call_step-total f hangs_up m = ground (arith, amount-append f m.pending_candidates m.dropped)

-- Each candidate was given to a connection that has a remote description.
abbrev pub all_given : List ℕ → List (ℕ × String) → Bool
all_given done [] = true
all_given done ((n, c) ∷ l) = has done n && all_given done l

all_given-cons :
    (n : ℕ) (done : List ℕ) (l : List (ℕ × String))
    → all_given done l ≡ true
    → all_given (n ∷ done) l ≡ true
all_given-cons n done [] h = refl
all_given-cons n done ((k, c) ∷ l) h = ground (arith, all_given-cons n done l)

abbrev GivenTo : WebRtcManager → Type 0
GivenTo m = all_given m.described m.applied ≡ true

call_step-GivenTo :
    (e : CallEvent) (m : WebRtcManager) → IsSound m → GivenTo m → GivenTo (call_step e m)
unfolding call_step start_local_stream captured init_peer_connection handle_offer handle_answer
    description_set description_fails add_ice_candidate drain track_comes toggle_audio toggle_video
    hangup
call_step-GivenTo starts m s g = ground arith
call_step-GivenTo (captures kind d) m s g = ground arith
call_step-GivenTo offers m s g = ground arith
call_step-GivenTo offer_comes m s g = ground arith
call_step-GivenTo answer_comes m s g = ground arith
call_step-GivenTo described m s g =
    elim m.pc as (λ o. GivenTo m → GivenTo (description_set (record m { pc = o }))) [
      | none ↦ λ h. ground arith
      | some n ↦ λ h. ground (arith, all_given-cons n m.described m.applied)
    ]
      g
call_step-GivenTo refused m s g = ground arith
call_step-GivenTo drains m s g = ground arith
call_step-GivenTo (candidate_comes c) m s g = ground arith
call_step-GivenTo (track stream t) m s g = ground arith
call_step-GivenTo (mutes b) m s g = ground arith
call_step-GivenTo (hides b) m s g = ground arith
call_step-GivenTo hangs_up m s g = g

abbrev pub hangs : CallEvent → Bool
hangs hangs_up = true
hangs _ = false

call_step-dropped :
    (e : CallEvent) (m : WebRtcManager)
    → IsSound m
    → hangs e ≡ false
    → (call_step e m).dropped ≡ m.dropped
unfolding call_step start_local_stream captured init_peer_connection handle_offer handle_answer
    description_set description_fails add_ice_candidate drain track_comes toggle_audio toggle_video
    hangup
call_step-dropped starts m s h = ground arith
call_step-dropped (captures kind d) m s h = ground arith
call_step-dropped offers m s h = ground arith
call_step-dropped offer_comes m s h = ground arith
call_step-dropped answer_comes m s h = ground arith
call_step-dropped described m s h = ground arith
call_step-dropped refused m s h = ground arith
call_step-dropped drains m s h = ground arith
call_step-dropped (candidate_comes c) m s h = ground arith
call_step-dropped (track stream t) m s h = ground arith
call_step-dropped (mutes b) m s h = ground arith
call_step-dropped (hides b) m s h = ground arith
call_step-dropped hangs_up m s h = cc

call_run-IsSound : (es : List CallEvent) (m : WebRtcManager) → IsSound m → IsSound (call_run es m)
unfolding call_run
call_run-IsSound [] m s = s
call_run-IsSound (e ∷ es) m s = call_run-IsSound es (call_step e m) (call_step-IsSound e m s)

call_run-GivenTo :
    (es : List CallEvent) (m : WebRtcManager) → IsSound m → GivenTo m → GivenTo (call_run es m)
unfolding call_run
call_run-GivenTo [] m s g = g
call_run-GivenTo (e ∷ es) m s g =
    call_run-GivenTo es (call_step e m) (call_step-IsSound e m s) (call_step-GivenTo e m s g)

call_run-total :
    (f : String → Bool) (es : List CallEvent) (m : WebRtcManager)
    → total f (call_run es m) ≡ total f m + amount f (candidates es)
unfolding call_run
call_run-total f [] m = omega arith
call_run-total f (e ∷ es) m = omega (
  arith,
  call_run-total f es (call_step e m),
  call_step-total f e m,
  amount-append f (candidate_of e) (candidates es),
)

call_run-dropped :
    (es : List CallEvent) (m : WebRtcManager)
    → IsSound m
    → All (λ e. hangs e ≡ false) es
    → (call_run es m).dropped ≡ m.dropped
unfolding call_run
call_run-dropped [] m s h = refl
call_run-dropped (e ∷ es) m s (h, hs) =
    call_run-dropped es (call_step e m) (call_step-IsSound e m s) hs ∙ call_step-dropped e m s h

-- In every run, whatever calls went before it and were hung up, and whatever the order of descriptions, candidates
-- and streams: without a further hangup every candidate that comes is given to a connection or
-- waits, as often as it came and no oftener (counted by any test); and no connection is ever given one
-- before its remote description is set.
pub call_run-candidates :
    (f : String → Bool) (before es : List CallEvent)
    → All (λ e. hangs e ≡ false) es
    → let m = hangup (call_run before new_manager) in
      let m' = call_run es m in
      (amount f (map text_of m'.applied) + amount f m'.pending_candidates
        ≡ amount f (map text_of m.applied) + amount f (candidates es))
      × (all_given m'.described m'.applied ≡ true)
unfolding call_step hangup
call_run-candidates f before es h =
    let start = call_run before new_manager in
    let m = hangup start in
    let s = call_step-IsSound hangs_up start (call_run-IsSound before new_manager refl) in
    let g = call_run-GivenTo before new_manager refl refl in
    (
      omega (arith, call_run-total f es m, ap (amount f) (call_run-dropped es m s h)),
      call_run-GivenTo es m s g,
    )
