-- ===== src/GroupCalls/Ice/Complete.antt =====
-- No candidate of a peer is lost or given too early.
use genchat.Base.{
  ℕ, ◌+◌, String, zero, suc, ap, ◌≡◌, ◌⊎◌, inl, inr, refl, Bool, true, false, not, ◌&&◌, ◌||◌, List,
  [], ◌∷◌, if◌then◌else◌, arith, amount, amount-append,
}
use genchat.GroupCalls.Ice.{
  Peer, new_peer, take_candidate, described, drain, IceEvent, candidate_comes, description_set,
  drains, candidate_rejected, ice_step, ice_run, candidate_of, candidates, IsTaken, AllTaken,
  waiting, is_idle, TakesTurn, InTurn,
}

abbrev pub is_empty : List String → Bool
is_empty [] = true
is_empty (c ∷ cs) = false

abbrev at_most_one : List (List String) → Bool
at_most_one [] = true
at_most_one (l ∷ []) = true
at_most_one (l ∷ k ∷ ls) = false

abbrev sound : Peer → Bool
sound p =
    if p.is_remote_description_set
    then p.remote_description
      && (at_most_one p.draining && (not (is_idle p) || is_empty p.pending_candidates))
    else not p.remote_description && (is_idle p && is_empty p.applied)

-- Once the description is set candidates wait only while a handler takes them; before, the connection
-- was given none.
abbrev IsSound : Peer → Type 0
IsSound p = sound p ≡ true

module _ (p : Peer) where
  take_candidate-IsSound : (c : String) → IsSound p → IsSound (take_candidate c p)
  unfolding take_candidate
  take_candidate-IsSound c h = ground arith

  described-IsSound : is_idle p ≡ true → IsSound p → IsSound (described p)
  unfolding described
  described-IsSound i h = ground arith

  -- Of at most one loop, there is only the first to go on.
  loops : IsSound p → (p.draining ≡ []) ⊎ ((l : List String) × (p.draining ≡ l ∷ []))
  loops h = go p.draining (ground arith)
    where
      go :
          (ls : List (List String))
          → at_most_one ls ≡ true
          → (ls ≡ []) ⊎ ((l : List String) × (ls ≡ l ∷ []))
      go [] e = inl refl
      go (l ∷ []) e = inr (l, refl)
      go (l ∷ k ∷ ls) e = ground arith

  drain-none : (i : ℕ) → p.draining ≡ [] → drain i p ≡ p
  unfolding drain
  drain-none i e = simp (drain, e)

  drain-later : (i : ℕ) (l : List String) → p.draining ≡ l ∷ [] → drain (suc i) p ≡ p
  unfolding drain
  drain-later i l e = simp (drain, e)

  drain-IsSound : (i : ℕ) → IsSound p → IsSound (drain i p)
  unfolding drain
  drain-IsSound i h = elim (loops h) [ inl e ↦ rw (drain-none i e) h | inr (l, e) ↦ go i l e ]
    where
      go : (i : ℕ) (l : List String) → p.draining ≡ l ∷ [] → IsSound (drain i p)
      go (suc i) l e = rw (drain-later i l e) h
      go zero [] e = ground arith
      go zero (c ∷ cs) e = ground arith

-- What a connection was given and what waits for it.
abbrev total : (String → Bool) → Peer → ℕ
total f p = amount f p.applied + amount f (waiting p)

module _ (f : String → Bool) (p : Peer) where
  take_candidate-total :
      (c : String) → IsSound p → total f (take_candidate c p) ≡ amount f (c ∷ []) + total f p
  unfolding take_candidate
  take_candidate-total c h =
      ground
        (arith, amount-append f p.applied (c ∷ []), amount-append f p.pending_candidates (c ∷ []))

  described-total : is_idle p ≡ true → total f (described p) ≡ total f p
  unfolding described
  described-total i = ground arith

  drain-total : (i : ℕ) → IsSound p → total f (drain i p) ≡ total f p
  unfolding drain
  drain-total i h = elim (loops p h) [
    | inl e ↦ ap (total f) (drain-none p i e)
    | inr (l, e) ↦ go i l e
  ]
    where
      go : (i : ℕ) (l : List String) → p.draining ≡ l ∷ [] → total f (drain i p) ≡ total f p
      go (suc i) l e = ap (total f) (drain-later p i l e)
      go zero [] e = ground arith
      go zero (c ∷ cs) e = ground (arith, amount-append f p.applied (c ∷ []))

ice_step-IsSound :
    (e : IceEvent) (p : Peer) → IsTaken e → TakesTurn e p → IsSound p → IsSound (ice_step e p)
unfolding ice_step
ice_step-IsSound (candidate_comes c) p t u h = take_candidate-IsSound p c h
ice_step-IsSound description_set p t u h = described-IsSound p u h
ice_step-IsSound (drains i) p t u h = drain-IsSound p i h
ice_step-IsSound (candidate_rejected i) p t u h = absurd t

ice_step-total :
    (f : String → Bool) (e : IceEvent) (p : Peer)
    → IsTaken e
    → TakesTurn e p
    → IsSound p
    → total f (ice_step e p) ≡ amount f (candidate_of e) + total f p
unfolding ice_step
ice_step-total f (candidate_comes c) p t u h = take_candidate-total f p c h
ice_step-total f description_set p t u h = omega (arith, described-total f p u)
ice_step-total f (drains i) p t u h = omega (arith, drain-total f p i h)
ice_step-total f (candidate_rejected i) p t u h = absurd t

ice_run-total :
    (f : String → Bool) (es : List IceEvent) (p : Peer)
    → AllTaken es
    → InTurn es p
    → IsSound p
    → IsSound (ice_run es p) × (total f (ice_run es p) ≡ amount f (candidates es) + total f p)
unfolding ice_run
ice_run-total f [] p t u h = (h, omega arith)
ice_run-total f (e ∷ es) p (t, ts) (u, us) h =
    let (k, q) = ice_run-total f es (ice_step e p) ts us (ice_step-IsSound e p t u h) in
    (
      k,
      omega
          (arith, q, ice_step-total f e p t u h, amount-append f (candidate_of e) (candidates es)),
    )

of_sound :
    (p : Peer)
    → IsSound p
    → ((p.applied ≡ []) ⊎ (p.remote_description ≡ true))
      × ((waiting p ≡ []) ⊎ (p.remote_description ≡ false) ⊎ (is_idle p ≡ false))
of_sound p h = (ground arith, ground arith)

-- In every run of a new connection in which no candidate is rejected and no description is set while a
-- handler is taking those that waited, whatever the order of candidates and descriptions otherwise:
-- every candidate that came has been given to the connection or waits, as often as it came and no
-- oftener (counted by any test); none is given before the remote description is set; and once it is
-- set, none waits but while a handler is taking those that waited.
pub ice_run_complete :
    (f : String → Bool) (es : List IceEvent) (pc : ℕ)
    → AllTaken es
    → InTurn es (new_peer pc)
    → let p = ice_run es (new_peer pc) in
      (amount f p.applied + amount f (waiting p) ≡ amount f (candidates es))
      × ((p.applied ≡ []) ⊎ (p.remote_description ≡ true))
      × ((waiting p ≡ []) ⊎ (p.remote_description ≡ false) ⊎ (is_idle p ≡ false))
ice_run_complete f es pc t u =
    let p = ice_run es (new_peer pc) in
    let (h, e) = ice_run-total f es (new_peer pc) t u refl in
    let (early, late) = of_sound p h in (omega (arith, e), early, late)
