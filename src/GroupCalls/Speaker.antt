-- ===== src/GroupCalls/Speaker.antt =====
-- packages/client-web/src/lib/group-webrtc-manager.ts: the loudest speaker of a group call
-- (`pollActiveSpeaker`). Volumes and the threshold are on one scale of natural numbers.
use genchat.Base.{
  ℕ, ◌≤◌, ◌<◌, String, ◌≡◌, refl, ◌&&◌, Option, none, some, List, [], ◌∷◌, ltb, if◌then◌else◌, ◌⊎◌,
  inl, inr, All, All-map, In, Bool-cases, arith,
}

-- The loop over the analysers, with the greatest volume so far and whose it is.
unfoldable pub louder : ℕ → List (String × ℕ) → ℕ → Option String → Option String
louder threshold [] max_vol loudest = loudest
louder threshold ((id, vol) ∷ rest) max_vol loudest =
    let is_louder = ltb threshold vol && ltb max_vol vol in
    louder threshold rest (if is_louder then vol else max_vol)
      (if is_louder then some id else loudest)

-- The local analyser, which is first where there is one and the microphone is not muted, has the id "local".
unfoldable pub loudest : ℕ → List (String × ℕ) → Option String
loudest threshold volumes = louder threshold volumes 0 none

-- How a speaker is the loudest of some, over a threshold.
abbrev IsLoudest : ℕ → List (String × ℕ) → Option String → Type 0
IsLoudest threshold volumes none = All (λ v. v.1 ≤ threshold) volumes
IsLoudest threshold volumes (some id) =
    (vol : ℕ) × In (id, vol) volumes × (threshold < vol) × All (λ v. v.1 ≤ vol) volumes

-- How the loop ends: nobody is over the threshold and louder than before, or the speaker found is one of
-- these and no one is louder.
abbrev Ends : ℕ → List (String × ℕ) → ℕ → Option String → Option String → Type 0
Ends threshold volumes max_vol before after =
    ((after ≡ before) × All (λ v. (v.1 ≤ threshold) ⊎ (v.1 ≤ max_vol)) volumes)
    ⊎ ((id : String) × (vol : ℕ) × (after ≡ some id)
        × In (id, vol) volumes
        × (threshold < vol)
        × (max_vol < vol)
        × All (λ v. v.1 ≤ vol) volumes)

module _ (threshold : ℕ) where
  louder_found :
      (id : String) (vol : ℕ) (rest : List (String × ℕ)) (max_vol : ℕ)
      (before after : Option String)
      → threshold < vol
      → max_vol < vol
      → Ends threshold rest vol (some id) after
      → Ends threshold ((id, vol) ∷ rest) max_vol before after
  louder_found id vol rest max_vol before after t m (inl (e, h)) =
      inr (id, vol, e, inl refl, t, m, (omega arith, All-map (λ v b. ground arith) rest h))
  louder_found id vol rest max_vol before after t m (inr (id', vol', e, i, t', m', h)) =
      inr (id', vol', e, inr i, t', omega arith, (omega arith, h))

  not_louder :
      (id : String) (vol : ℕ) (rest : List (String × ℕ)) (max_vol : ℕ)
      (before after : Option String)
      → (vol ≤ threshold) ⊎ (vol ≤ max_vol)
      → Ends threshold rest max_vol before after
      → Ends threshold ((id, vol) ∷ rest) max_vol before after
  not_louder id vol rest max_vol before after s (inl (e, h)) = inl (e, (s, h))
  not_louder id vol rest max_vol before after s (inr (id', vol', e, i, t, m, h)) =
      inr (id', vol', e, inr i, t, m, (ground arith, h))

  louder-Ends :
      (volumes : List (String × ℕ)) (max_vol : ℕ) (before : Option String)
      → Ends threshold volumes max_vol before (louder threshold volumes max_vol before)
  unfolding louder
  louder-Ends [] max_vol before = inl (refl, tt)
  louder-Ends ((id, vol) ∷ rest) max_vol before =
      elim (Bool-cases (ltb threshold vol && ltb max_vol vol)) [
        | inl e ↦ rw e (
            louder_found id vol rest max_vol before (louder threshold rest vol (some id))
              (ground arith) (ground arith) (louder-Ends rest vol (some id)))
        | inr e ↦ rw e (
            not_louder id vol rest max_vol before (louder threshold rest max_vol before)
              (ground arith) (louder-Ends rest max_vol before))
      ]

  -- The speaker that is found is over the threshold and no one is louder; where none is found, no one is
  -- over the threshold.
  loudest-IsLoudest :
      (volumes : List (String × ℕ)) → IsLoudest threshold volumes (loudest threshold volumes)
  unfolding loudest
  loudest-IsLoudest volumes = elim (louder-Ends volumes 0 none) [
    | inl (e, h) ↦ rw e (All-map (λ v b. ground arith) volumes h)
    | inr (id, vol, e, i, t, m, h) ↦ rw e (vol, i, t, h)
  ]
