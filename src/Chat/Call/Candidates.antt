-- ===== src/Chat/Call/Candidates.antt =====
-- The candidates of the calls of the page, and the managers that it makes.
use genchat.Base.{
  ℕ, ◌+◌, String, ◌==◌, ◌≡◌, refl, Bool, true, false, not, ◌&&◌, none, some, List, [], ◌∷◌, ◌++◌,
  map, if◌then◌else◌, arith, any, nat_eq, ltb, amount, amount-append,
}
use genchat.Chat.Call.{
  PageCall, no_call, PageCallEvent, incoming, handle_end_call, handle_reject_call,
  handle_start_call, handle_accept_call, made, drained, negotiated, on_offer, on_answer,
  on_candidate, on_hangup, ring_timeout, on_connection, starts, accepts, rejects, ends,
  servers_come, drains, negotiates, offer_comes, answer_comes, candidate_comes, hangup_comes,
  rings_out, connection, page_call_step, page_call_run,
}

abbrev pub text_of : ℕ × String → String
text_of (n, c) = c

-- The candidates that were given to a manager, that wait, and that were dropped.
abbrev pub total : (String → Bool) → PageCall → ℕ
total f c = amount f (map text_of c.given) + amount f c.pending_ice_candidates + amount f c.dropped

-- The candidate that comes with an event, but for an empty one.
abbrev pub candidate_of : PageCallEvent → List String
candidate_of (candidate_comes c) = if c == "" then [] else c ∷ []
candidate_of _ = []

abbrev pub candidates : List PageCallEvent → List String
candidates [] = []
candidates (e ∷ es) = candidate_of e ++ candidates es

end_call-total : (f : String → Bool) (c : PageCall) → total f (handle_end_call c) ≡ total f c
unfolding handle_end_call
end_call-total f c = ground (arith, amount-append f c.pending_ice_candidates c.dropped)

page_call_step-total :
    (f : String → Bool) (e : PageCallEvent) (c : PageCall)
    → total f (page_call_step e c) ≡ total f c + amount f (candidate_of e)
unfolding page_call_step handle_reject_call handle_start_call handle_accept_call made drained
    negotiated on_offer on_answer on_candidate on_hangup ring_timeout on_connection
page_call_step-total f (starts ready id peer kind) c = ground arith
page_call_step-total f accepts c = ground arith
page_call_step-total f rejects c =
    ground (arith, amount-append f c.pending_ice_candidates c.dropped)
page_call_step-total f ends c = ground (arith, end_call-total f c)
page_call_step-total f servers_come c = ground arith
page_call_step-total f (drains n) c = ground arith
page_call_step-total f (negotiates kind id peer none) c = ground (arith, end_call-total f c)
page_call_step-total f (negotiates kind id peer (some sdp)) c = ground arith
page_call_step-total f (offer_comes id sender kind sdp) c = ground arith
page_call_step-total f (answer_comes sdp) c = ground arith
page_call_step-total f (candidate_comes d) c =
    ground (arith, amount-append f c.pending_ice_candidates (d ∷ []))
page_call_step-total f hangup_comes c =
    ground (arith, amount-append f c.pending_ice_candidates c.dropped)
page_call_step-total f rings_out c =
    ground (arith, end_call-total f c, amount-append f c.pending_ice_candidates c.dropped)
page_call_step-total f (connection true) c = ground arith
page_call_step-total f (connection false) c = ground (arith, end_call-total f c)

abbrev all_below : ℕ → List ℕ → Bool
all_below k [] = true
all_below k (n ∷ ns) = ltb n k && all_below k ns

all_below-suc : (k : ℕ) (l : List ℕ) → all_below k l ≡ true → all_below (k + 1) l ≡ true
all_below-suc k [] h = refl
all_below-suc k (n ∷ l) h = ground (arith, all_below-suc k l)

all_below-fresh : (k : ℕ) (l : List ℕ) → all_below k l ≡ true → any (nat_eq k) l ≡ false
all_below-fresh k [] h = refl
all_below-fresh k (n ∷ l) h = ground (arith, all_below-fresh k l)

-- A page that waits for its user to take a call has the offer; the manager that it holds was made, and was
-- not hung up.
abbrev pub has_offer : PageCall → Bool
has_offer c = elim c.call_state [
  | incoming ↦ elim c.pending_offer [ none ↦ false | some o ↦ true ]
  | _ ↦ true
]

abbrev pub holds_open : PageCall → Bool
holds_open c = elim c.webrtc [
  | none ↦ true
  | some n ↦ ltb n c.managers && not (any (nat_eq n) c.hung_up)
]

abbrev sound : PageCall → Bool
sound c = has_offer c && (holds_open c && all_below c.managers c.hung_up)

abbrev IsSound : PageCall → Type 0
IsSound c = sound c ≡ true

end_call-IsSound : (c : PageCall) → IsSound c → IsSound (handle_end_call c)
unfolding handle_end_call
end_call-IsSound c s = ground arith

page_call_step-IsSound :
    (e : PageCallEvent) (c : PageCall) → IsSound c → IsSound (page_call_step e c)
unfolding page_call_step handle_reject_call handle_start_call handle_accept_call made drained
    negotiated on_offer on_answer on_candidate on_hangup ring_timeout on_connection
page_call_step-IsSound (starts ready id peer kind) c s = ground arith
page_call_step-IsSound accepts c s = ground arith
page_call_step-IsSound rejects c s = ground arith
page_call_step-IsSound ends c s = end_call-IsSound c s
page_call_step-IsSound servers_come c s =
    ground (arith, all_below-suc c.managers c.hung_up, all_below-fresh c.managers c.hung_up)
page_call_step-IsSound (drains n) c s = ground arith
page_call_step-IsSound (negotiates kind id peer none) c s = end_call-IsSound c s
page_call_step-IsSound (negotiates kind id peer (some sdp)) c s = ground arith
page_call_step-IsSound (offer_comes id sender kind sdp) c s = ground arith
page_call_step-IsSound (answer_comes sdp) c s = ground arith
page_call_step-IsSound (candidate_comes d) c s = ground arith
page_call_step-IsSound hangup_comes c s = ground arith
page_call_step-IsSound rings_out c s = ground (arith, end_call-IsSound c)
page_call_step-IsSound (connection true) c s = ground arith
page_call_step-IsSound (connection false) c s = end_call-IsSound c s

run-total :
    (f : String → Bool) (es : List PageCallEvent) (c : PageCall)
    → total f (page_call_run es c) ≡ total f c + amount f (candidates es)
unfolding page_call_run
run-total f [] c = omega arith
run-total f (e ∷ es) c = omega (
  arith,
  run-total f es (page_call_step e c),
  page_call_step-total f e c,
  amount-append f (candidate_of e) (candidates es),
)

run-IsSound : (es : List PageCallEvent) (c : PageCall) → IsSound c → IsSound (page_call_run es c)
unfolding page_call_run
run-IsSound [] c s = s
run-IsSound (e ∷ es) c s = run-IsSound es (page_call_step e c) (page_call_step-IsSound e c s)

-- In every run of the calls of a page, in whatever order signals, answers of the platform, timeouts and the
-- user come, each candidate that comes, and is not empty, was given to a manager, waits or was
-- dropped, as often as it came and no oftener (counted by any test); where a call rings, there is an
-- offer to accept; and a manager that the page holds was not hung up.
pub page_call_run-candidates :
    (f : String → Bool) (es : List PageCallEvent)
    → let c = page_call_run es no_call in
      (amount f (map text_of c.given) + amount f c.pending_ice_candidates + amount f c.dropped
        ≡ amount f (candidates es))
      × (has_offer c ≡ true)
      × (holds_open c ≡ true)
page_call_run-candidates f es =
    let s = run-IsSound es no_call refl in
    (omega (arith, run-total f es no_call), ground (arith, s), ground (arith, s))
