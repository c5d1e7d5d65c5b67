-- ===== src/Calls/Sdp/Lines.antt =====
-- packages/client-web/src/lib/webrtc-manager.ts: the lines of a description whose parameters
-- `optimizeAudioSdp` has added.
use genchat.Base.{
  ◌≡◌, refl, sym, ap, ◌∙◌, Bool, true, false, ◌||◌, Option, none, some, List, [], ◌∷◌, ◌++◌, All,
  map, any, ◌⊎◌, inl, inr, Bool-cases, arith,
}
use mathlib.Core.Path.{ap₂}
use genchat.Calls.Sdp.{
  Text, strip, is_some, strip_folded, rtpmap_opus, or_else, opus_pt, with_params, add_params,
  enhanced_params, fmtp_of, rtpmap_of, enhance_line, is_fmtp, insert_fmtp, enhance_lines, add_each,
  includes,
}
use genchat.Calls.Sdp.Parameters.{strip-append, append-strip, add_params_idem}

pub Option-cases : {A : Type 0} (o : Option A) → (o ≡ none) ⊎ ((a : A) × (o ≡ some a))
Option-cases none = inl refl
Option-cases (some a) = inr (a, refl)

module _ (pt : Text) where
  pub enhance_line-other : (l : Text) → strip (fmtp_of pt) l ≡ none → enhance_line pt l ≡ l
  unfolding enhance_line
  enhance_line-other l e = ap (with_params pt l) e

  pub enhance_line-own :
      (l r : Text) → strip (fmtp_of pt) l ≡ some r → enhance_line pt l ≡ fmtp_of pt ++ add_params r
  unfolding enhance_line
  enhance_line-own l r e = ap (with_params pt l) e

  enhance_line-fmtp : (r : Text) → enhance_line pt (fmtp_of pt ++ r) ≡ fmtp_of pt ++ add_params r
  enhance_line-fmtp r = enhance_line-own (fmtp_of pt ++ r) r (strip-append (fmtp_of pt) r)

  pub enhance_line_idem : (l : Text) → enhance_line pt (enhance_line pt l) ≡ enhance_line pt l
  enhance_line_idem l = elim (Option-cases (strip (fmtp_of pt) l)) [
    | inl e ↦ ap (enhance_line pt) (enhance_line-other l e)
    | inr (r, e) ↦
        let here = enhance_line-own l r e in
        ap (enhance_line pt) here
        ∙ enhance_line-fmtp (add_params r)
        ∙ ap (λ x. fmtp_of pt ++ x) (add_params_idem r)
        ∙ sym here
  ]

  is_fmtp-enhance_line : (l : Text) → is_fmtp pt (enhance_line pt l) ≡ is_fmtp pt l
  is_fmtp-enhance_line l = elim (Option-cases (strip (fmtp_of pt) l)) [
    | inl e ↦ ap (is_fmtp pt) (enhance_line-other l e)
    | inr (r, e) ↦
        ap (is_fmtp pt) (enhance_line-own l r e)
        ∙ ap is_some (strip-append (fmtp_of pt) (add_params r))
        ∙ sym (ap is_some e)
  ]

  rtpmap_opus-fmtp : (r : Text) → rtpmap_opus (fmtp_of pt ++ r) ≡ none
  unfolding rtpmap_opus strip_folded fmtp_of
  rtpmap_opus-fmtp r = refl

  rtpmap_opus-enhance_line : (l : Text) → rtpmap_opus (enhance_line pt l) ≡ rtpmap_opus l
  rtpmap_opus-enhance_line l = elim (Option-cases (strip (fmtp_of pt) l)) [
    | inl e ↦ ap rtpmap_opus (enhance_line-other l e)
    | inr (r, e) ↦
        ap rtpmap_opus (enhance_line-own l r e)
        ∙ rtpmap_opus-fmtp (add_params r)
        ∙ sym (rtpmap_opus-fmtp r)
        ∙ ap rtpmap_opus (sym (append-strip (fmtp_of pt) l r e))
  ]

  opus_pt-map : (ls : List Text) → opus_pt (map (enhance_line pt) ls) ≡ opus_pt ls
  unfolding opus_pt
  opus_pt-map [] = refl
  opus_pt-map (l ∷ ls) = ap₂ or_else (rtpmap_opus-enhance_line l) (opus_pt-map ls)

  opus_pt-insert_fmtp : (ls : List Text) → opus_pt (insert_fmtp pt ls) ≡ opus_pt ls
  unfolding opus_pt insert_fmtp
  opus_pt-insert_fmtp [] = refl
  opus_pt-insert_fmtp (l ∷ ls) =
      ground (arith, opus_pt-insert_fmtp ls, rtpmap_opus-fmtp enhanced_params)

  pub opus_pt-enhance_lines : (ls : List Text) → opus_pt (enhance_lines pt ls) ≡ opus_pt ls
  unfolding enhance_lines
  opus_pt-enhance_lines ls = elim (Bool-cases (any (is_fmtp pt) ls)) [
    | inl e ↦ rw e (opus_pt-map ls)
    | inr e ↦ rw e (opus_pt-insert_fmtp (map (enhance_line pt) ls) ∙ opus_pt-map ls)
  ]

  any-is_fmtp-map :
      (ls : List Text) → any (is_fmtp pt) (map (enhance_line pt) ls) ≡ any (is_fmtp pt) ls
  any-is_fmtp-map [] = refl
  any-is_fmtp-map (l ∷ ls) = ap₂ ◌||◌ (is_fmtp-enhance_line l) (any-is_fmtp-map ls)

  map_idem :
      (ls : List Text) → map (enhance_line pt) (map (enhance_line pt) ls) ≡ map (enhance_line pt) ls
  map_idem [] = refl
  map_idem (l ∷ ls) = ap₂ ◌∷◌ (enhance_line_idem l) (map_idem ls)

  -- Without a line of parameters, none is changed.
  map-enhance_line_of :
      (ls : List Text) → any (is_fmtp pt) ls ≡ false → map (enhance_line pt) ls ≡ ls
  map-enhance_line_of [] h = refl
  map-enhance_line_of (l ∷ ls) h = elim (Option-cases (strip (fmtp_of pt) l)) [
    | inl e ↦
        ap₂ ◌∷◌ (enhance_line-other l e)
          (map-enhance_line_of ls (ap (λ o. is_some o || any (is_fmtp pt) ls) (sym e) ∙ h))
    | inr (r, e) ↦ absurd (cc (ap (λ o. is_some o || any (is_fmtp pt) ls) (sym e) ∙ h))
  ]

  is_fmtp-fmtp : (r : Text) → is_fmtp pt (fmtp_of pt ++ r) ≡ true
  is_fmtp-fmtp r = ap is_some (strip-append (fmtp_of pt) r)

  or_true : (a b : Bool) → b ≡ true → (a || b) ≡ true
  or_true true b h = refl
  or_true false b h = h

  -- The line is inserted, or there is no place for it.
  insert_fmtp-cases :
      (ls : List Text) → (any (is_fmtp pt) (insert_fmtp pt ls) ≡ true) ⊎ (insert_fmtp pt ls ≡ ls)
  unfolding insert_fmtp
  insert_fmtp-cases [] = inr refl
  insert_fmtp-cases (l ∷ ls) = elim (Bool-cases (is_some (strip (rtpmap_of pt) l))) [
    | inl e ↦ rw e (
        inl (
          or_true (is_fmtp pt l) _
            (ap (λ b. b || any (is_fmtp pt) ls) (is_fmtp-fmtp enhanced_params))))
    | inr e ↦ rw e (elim (insert_fmtp-cases ls) [
      | inl h ↦ inl (or_true (is_fmtp pt l) _ h)
      | inr h ↦ inr (ap (λ r. l ∷ r) h)
    ])
  ]

  enhance_line-inserted :
      enhance_line pt (fmtp_of pt ++ enhanced_params) ≡ fmtp_of pt ++ enhanced_params
  unfolding add_params add_each includes strip
  enhance_line-inserted = enhance_line-fmtp enhanced_params

  abbrev Kept : Text → Type 0
  Kept l = enhance_line pt l ≡ l

  map-Kept : (ls : List Text) → All Kept ls → map (enhance_line pt) ls ≡ ls
  map-Kept [] h = refl
  map-Kept (l ∷ ls) (h, hs) = ap₂ ◌∷◌ h (map-Kept ls hs)

  Kept-map : (ls : List Text) → All Kept (map (enhance_line pt) ls)
  Kept-map [] = tt
  Kept-map (l ∷ ls) = (enhance_line_idem l, Kept-map ls)

  map-insert_fmtp :
      (ls : List Text) → All Kept ls → map (enhance_line pt) (insert_fmtp pt ls) ≡ insert_fmtp pt ls
  unfolding insert_fmtp
  map-insert_fmtp [] h = refl
  map-insert_fmtp (l ∷ ls) (h, hs) = elim (Bool-cases (is_some (strip (rtpmap_of pt) l))) [
    | inl e ↦ rw e (ap₂ ◌∷◌ h (ap₂ ◌∷◌ enhance_line-inserted (map-Kept ls hs)))
    | inr e ↦ rw e (ap₂ ◌∷◌ h (map-insert_fmtp ls hs))
  ]

  pub enhance_lines_idem :
      (ls : List Text) → enhance_lines pt (enhance_lines pt ls) ≡ enhance_lines pt ls
  unfolding enhance_lines
  enhance_lines_idem ls = elim (Bool-cases (any (is_fmtp pt) ls)) [
    | inl e ↦ rw (e, any-is_fmtp-map ls, e) (map_idem ls)
    | inr e ↦ rw e (elim (insert_fmtp-cases (map (enhance_line pt) ls)) [
      | inl f ↦ rw f (map-insert_fmtp (map (enhance_line pt) ls) (Kept-map ls))
      | inr f ↦ rw (f, any-is_fmtp-map ls, e, map_idem ls, f) refl
    ])
  ]
