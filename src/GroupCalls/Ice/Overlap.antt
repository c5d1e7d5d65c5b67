-- ===== src/GroupCalls/Ice/Overlap.antt =====
-- What no overlap of descriptions loses.
use mathlib.Core.Option.{some-injective}
use genchat.Base.{
  ℕ, zero, suc, ◌+◌, ◌≤◌, String, ◌≡◌, ◌⊎◌, refl, sym, subst, inl, inr, Bool, true, false, not,
  ◌&&◌, ◌||◌, Bool-cases, Option-cases, none, some, List, [], ◌∷◌, ◌++◌, if◌then◌else◌, arith, All,
  All-map, All-append, amount, amount-append,
}
use genchat.GroupCalls.Ice.{
  Peer, new_peer, take_candidate, described, drain, IceEvent, candidate_comes, description_set,
  drains, candidate_rejected, ice_step, ice_run, candidate_of, candidates, IsTaken, AllTaken,
  is_idle, loop_at, set_loop, drop_loop, start_drain,
}
use genchat.GroupCalls.Ice.Complete.{is_empty}

module _ (P : List String → Type 0) where
  of_loop_at :
      (i : ℕ) (ls : List (List String)) (l : List String) → All P ls → loop_at i ls ≡ some l → P l
  of_loop_at i [] l a e = ground arith
  of_loop_at zero (k ∷ ls) l (h, hs) e = subst P (some-injective k l e) h
  of_loop_at (suc i) (k ∷ ls) l (h, hs) e = of_loop_at i ls l hs e

  set_loop-All :
      (i : ℕ) (l : List String) (ls : List (List String)) → P l → All P ls → All P (set_loop i l ls)
  set_loop-All i l [] h a = tt
  set_loop-All zero l (k ∷ ls) h (b, a) = (h, a)
  set_loop-All (suc i) l (k ∷ ls) h (b, a) = (b, set_loop-All i l ls h a)

  drop_loop-All : (i : ℕ) (ls : List (List String)) → All P ls → All P (drop_loop i ls)
  drop_loop-All i [] a = tt
  drop_loop-All zero (k ∷ ls) (b, a) = a
  drop_loop-All (suc i) (k ∷ ls) (b, a) = (b, drop_loop-All i ls a)

module _ (f : String → Bool) where
  -- At least `n` candidates were given or are among those of a list.
  abbrev Covers : ℕ → Peer → List String → Type 0
  Covers n p l = n ≤ amount f p.applied + amount f l

  -- What waits, and what each loop has yet to take, covers what came; loops are under way only where the
  -- description is set.
  abbrev Covered : ℕ → Peer → Type 0
  Covered n p = Covers n p p.pending_candidates × All (Covers n p) p.draining

  none_left : (i : ℕ) (p : Peer) → loop_at i p.draining ≡ none → drain i p ≡ p
  unfolding drain
  none_left i p e = simp (drain, e)

  ends :
      (i : ℕ) (p : Peer)
      → loop_at i p.draining ≡ some []
      → drain i p ≡ record p { draining = drop_loop i p.draining; pending_candidates = [] }
  unfolding drain
  ends i p e = simp (drain, e)

  goes_on :
      (i : ℕ) (p : Peer) (c : String) (cs : List String)
      → loop_at i p.draining ≡ some (c ∷ cs)
      → drain i p
        ≡ record p { draining = set_loop i cs p.draining; applied = p.applied ++ (c ∷ []) }
  unfolding drain
  goes_on i p c cs e = simp (drain, e)

  drain-Covered : (n i : ℕ) (p : Peer) → Covered n p → Covered n (drain i p)
  drain-Covered n i p (w, a) = elim (Option-cases (loop_at i p.draining)) [
    | inl e ↦ subst (Covered n) (sym (none_left i p e)) (w, a)
    | inr (l, e) ↦ go l e (of_loop_at (Covers n p) i p.draining l a e)
  ]
    where
      go : (l : List String) → loop_at i p.draining ≡ some l → Covers n p l → Covered n (drain i p)
      go [] e h =
          subst (Covered n) (sym (ends i p e)) (h, drop_loop-All (Covers n p) i p.draining a)
      go (c ∷ cs) e h =
          let p' : Peer = record p {
            draining = set_loop i cs p.draining;
            applied = p.applied ++ (c ∷ []);
          } in
          let m = amount-append f p.applied (c ∷ []) in
          subst (Covered n) (sym (goes_on i p c cs e)) (
            omega (arith, w, m),
            set_loop-All (Covers n p') i cs p.draining (ground (arith, h, m))
                (All-map (λ l h. omega (arith, h, m)) p.draining a),
          )

  -- Once the description is set candidates wait only while a handler takes them; before, none was given.
  abbrev sound : Peer → Bool
  sound p =
      if p.is_remote_description_set
      then p.remote_description && (not (is_idle p) || is_empty p.pending_candidates)
      else not p.remote_description && (is_idle p && is_empty p.applied)

  abbrev IsSound : Peer → Type 0
  IsSound p = sound p ≡ true

  set_loop-idle :
      (i : ℕ) (cs : List String) (p : Peer) (ls : List (List String))
      → is_idle (record p { draining = set_loop i cs ls }) ≡ is_idle (record p { draining = ls })
  set_loop-idle i cs p [] = refl
  set_loop-idle zero cs p (l ∷ ls) = refl
  set_loop-idle (suc i) cs p (l ∷ ls) = refl

  -- A loop can go on only where one is under way.
  busy : (i : ℕ) (p : Peer) (l : List String) → loop_at i p.draining ≡ some l → is_idle p ≡ false
  busy i p l e = go p.draining e
    where
      go :
          (ls : List (List String))
          → loop_at i ls ≡ some l
          → is_idle (record p { draining = ls }) ≡ false
      go [] q = ground arith
      go (k ∷ ls) q = refl

  drain-IsSound : (i : ℕ) (p : Peer) → IsSound p → IsSound (drain i p)
  drain-IsSound i p h = elim (Option-cases (loop_at i p.draining)) [
    | inl e ↦ subst IsSound (sym (none_left i p e)) h
    | inr (l, e) ↦ go l e (busy i p l e)
  ]
    where
      go :
          (l : List String)
          → loop_at i p.draining ≡ some l
          → is_idle p ≡ false
          → IsSound (drain i p)
      go [] e b = subst IsSound (sym (ends i p e)) (ground arith)
      go (c ∷ cs) e b =
          subst IsSound (sym (goes_on i p c cs e)) (ground (arith, set_loop-idle i cs p p.draining))

  take_candidate-IsSound : (c : String) (p : Peer) → IsSound p → IsSound (take_candidate c p)
  unfolding take_candidate
  take_candidate-IsSound c p h = ground arith

  append-idle :
      (p : Peer) (ls : List (List String)) (l : List String)
      → is_idle (record p { draining = ls ++ (l ∷ []) }) ≡ false
  append-idle p [] l = refl
  append-idle p (k ∷ ls) l = refl

  none_under_way : (p : Peer) → is_idle p ≡ true → p.draining ≡ []
  none_under_way p h = ground arith

  -- What a description does where none wait, and where some do.
  described_cases :
      (P : Peer → Type 0) (p : Peer)
      → let p' : Peer = record p { remote_description = true; is_remote_description_set = true } in
        (p.pending_candidates ≡ [] → P p')
        → P (record p' { draining = p.draining ++ (p.pending_candidates ∷ []) })
        → P (described p)
  unfolding described
  described_cases P p waits_none waits_some = go p.pending_candidates waits_none waits_some
    where
      p' : Peer
      p' = record p { remote_description = true; is_remote_description_set = true }

      go :
          (l : List String)
          → (l ≡ [] → P p')
          → P (record p' { draining = p.draining ++ (l ∷ []) })
          → P (start_drain l p')
      go [] none_waits some_wait = none_waits refl
      go (c ∷ cs) none_waits some_wait = some_wait

  described-IsSound : (p : Peer) → IsSound p → IsSound (described p)
  described-IsSound p h =
      described_cases IsSound p (λ e. ground arith)
        (ground (arith, append-idle p p.draining p.pending_candidates))

  take_candidate-Covered :
      (n : ℕ) (c : String) (p : Peer)
      → IsSound p
      → Covered n p
      → Covered (amount f (c ∷ []) + n) (take_candidate c p)
  unfolding take_candidate
  take_candidate-Covered n c p s (w, a) =
      elim (Bool-cases (p.is_remote_description_set && p.remote_description)) [
        | inl e ↦
            let m = amount-append f p.applied (c ∷ []) in
            rw e (omega (arith, w, m), All-map (λ l h. omega (arith, h, m)) p.draining a)
        | inr e ↦
            let m = amount-append f p.pending_candidates (c ∷ []) in
            let q = none_under_way p (ground (arith, s, e)) in rw (e, q) (omega (arith, w, m), tt)
      ]

  described-Covered : (n : ℕ) (p : Peer) → Covered n p → Covered n (described p)
  described-Covered n p (w, a) =
      described_cases (Covered n) p (λ e. (w, a))
        (w, All-append (Covers n p) p.draining (p.pending_candidates ∷ []) a (w, tt))

  ice_step-IsSound : (e : IceEvent) (p : Peer) → IsTaken e → IsSound p → IsSound (ice_step e p)
  unfolding ice_step
  ice_step-IsSound (candidate_comes c) p t s = take_candidate-IsSound c p s
  ice_step-IsSound description_set p t s = described-IsSound p s
  ice_step-IsSound (drains i) p t s = drain-IsSound i p s
  ice_step-IsSound (candidate_rejected i) p t s = absurd t

  none_more : (n : ℕ) (p : Peer) → Covered n p → Covered (0 + n) p
  none_more n p h = let q : n ≡ 0 + n = omega arith in subst (λ m. Covered m p) q h

  ice_step-Covered :
      (n : ℕ) (e : IceEvent) (p : Peer)
      → IsTaken e
      → IsSound p
      → Covered n p
      → Covered (amount f (candidate_of e) + n) (ice_step e p)
  unfolding ice_step
  ice_step-Covered n (candidate_comes c) p t s h = take_candidate-Covered n c p s h
  ice_step-Covered n description_set p t s h = none_more n (described p) (described-Covered n p h)
  ice_step-Covered n (drains i) p t s h = none_more n (drain i p) (drain-Covered n i p h)
  ice_step-Covered n (candidate_rejected i) p t s h = absurd t

  ice_run-Covered :
      (n : ℕ) (es : List IceEvent) (p : Peer)
      → AllTaken es
      → IsSound p
      → Covered n p
      → IsSound (ice_run es p) × Covered (amount f (candidates es) + n) (ice_run es p)
  unfolding ice_run
  ice_run-Covered n [] p t s h = (s, none_more n p h)
  ice_run-Covered n (e ∷ es) p (t, ts) s h =
      let (k, r) =
        ice_run-Covered (amount f (candidate_of e) + n) es (ice_step e p) ts
          (ice_step-IsSound e p t s) (ice_step-Covered n e p t s h) in
      let q : amount f (candidates es) + (amount f (candidate_of e) + n)
          ≡ amount f (candidates (e ∷ es)) + n =
        omega (arith, amount-append f (candidate_of e) (candidates es)) in
      (k, subst (λ m. Covered m (ice_run es (ice_step e p))) q r)

  settled :
      (n : ℕ) (p : Peer)
      → IsSound p
      → Covered n p
      → ((p.applied ≡ []) ⊎ (p.remote_description ≡ true))
        × ((n ≤ amount f p.applied) ⊎ (p.remote_description ≡ false) ⊎ (is_idle p ≡ false))
  settled n p s (w, a) = (ground arith, ground (arith, w))

-- In every run of a new connection in which no candidate is rejected, descriptions that overlap included: no
-- candidate is lost. What was given with what waits, and with what any handler has yet to take, is at
-- least what came (counted by any test); none is given before the remote description is set; and once it
-- is set and no handler takes any, each candidate was given at least as often as it came.
pub ice_run-loses_none :
    (f : String → Bool) (es : List IceEvent) (pc : ℕ)
    → AllTaken es
    → let p = ice_run es (new_peer pc) in
      (amount f (candidates es) ≤ amount f p.applied + amount f p.pending_candidates)
      × All (λ l. amount f (candidates es) ≤ amount f p.applied + amount f l) p.draining
      × ((p.applied ≡ []) ⊎ (p.remote_description ≡ true))
      × ((amount f (candidates es) ≤ amount f p.applied)
          ⊎ (p.remote_description ≡ false)
          ⊎ (is_idle p ≡ false))
ice_run-loses_none f es pc t =
    let p = ice_run es (new_peer pc) in
    let n = amount f (candidates es) in
    let (s, h) = ice_run-Covered f 0 es (new_peer pc) t refl (omega arith, tt) in
    let q : n + 0 ≡ n = omega arith in
    let (w, a) = subst (λ m. Covered f m p) q h in
    let (early, late) = settled f n p s (w, a) in (w, a, early, late)
