-- ===== src/Calls/Sdp/Idempotent.antt =====
-- packages/client-web/src/lib/webrtc-manager.ts: a description that `optimizeAudioSdp` has rewritten is not
-- changed by it again.
use genchat.Base.{
  ◌≡◌, refl, sym, ap, subst, ◌∙◌, Bool, false, Option, none, some, List, [], ◌∷◌, ◌++◌, All, map,
  any, nat_eq, inl, inr, Bool-cases, arith,
}
use mathlib.Core.Path.{ap₂}
use mathlib.Core.List.{append_assoc}
use genchat.Codec.Hex.{codes}
use genchat.Calls.Sdp.{
  Text, strip, is_some, strip_folded, span, split_lines, join_lines, is_digit, numbered, matched,
  rtpmap_opus, or_else, opus_pt, parameters, add_param, add_each, add_params, enhanced_params,
  fmtp_of, rtpmap_of, enhance_line, is_fmtp, insert_fmtp, enhance_lines, optimized,
  optimize_audio_sdp, includes,
}
use genchat.Calls.Sdp.Breaks.{
  IsLine, AreLines, NoFeed, split_lines-join_lines, split_lines-AreLines, NoFeed-IsLine,
  IsLine-append,
}
use genchat.Calls.Sdp.Parameters.{append-strip}
use genchat.Calls.Sdp.Lines.{
  opus_pt-enhance_lines, enhance_lines_idem, Option-cases, enhance_line-other, enhance_line-own,
}

abbrev has_feed : Text → Bool
has_feed = any (λ c. nat_eq c 10)

NoFeed-has_feed : (s : Text) → has_feed s ≡ false → NoFeed s
NoFeed-has_feed [] h = tt
NoFeed-has_feed (c ∷ s) h = (ground arith, NoFeed-has_feed s (ground arith))

abbrev GivesLine : Text × Text → Type 0
GivesLine (key, given) = has_feed given ≡ false

add_param-IsLine :
    (before key given params : Text)
    → NoFeed given
    → IsLine (before ++ params)
    → IsLine (before ++ add_param key given params)
unfolding add_param
add_param-IsLine before key given params n h = elim (Bool-cases (includes params key)) [
  | inl e ↦ rw e h
  | inr e ↦ rw (e, ← append_assoc before params given) (IsLine-append (before ++ params) given h n)
]

add_each-IsLine :
    (before : Text) (all : List (Text × Text)) (params : Text)
    → All GivesLine all
    → IsLine (before ++ params)
    → IsLine (before ++ add_each all params)
unfolding add_each
add_each-IsLine before [] params g h = h
add_each-IsLine before ((key, given) ∷ all) params (g, gs) h =
    add_each-IsLine before all (add_param key given params) gs
      (add_param-IsLine before key given params (NoFeed-has_feed given g) h)

parameters-GivesLine : All GivesLine parameters
parameters-GivesLine = (refl, (refl, (refl, (refl, (refl, (refl, tt))))))

enhance_line-IsLine : (pt l : Text) → IsLine l → IsLine (enhance_line pt l)
unfolding add_params
enhance_line-IsLine pt l h = elim (Option-cases (strip (fmtp_of pt) l)) [
  | inl e ↦ rw (enhance_line-other pt l e) h
  | inr (r, e) ↦ rw (enhance_line-own pt l r e) (
      add_each-IsLine (fmtp_of pt) parameters r parameters-GivesLine
        (subst IsLine (append-strip (fmtp_of pt) l r e) h))
]

map-enhance_line-IsLine :
    (pt : Text) (ls : List Text) → All IsLine ls → All IsLine (map (enhance_line pt) ls)
map-enhance_line-IsLine pt [] h = tt
map-enhance_line-IsLine pt (l ∷ ls) (h, hs) =
    (enhance_line-IsLine pt l h, map-enhance_line-IsLine pt ls hs)

NoFeed-append : (s t : Text) → NoFeed s → NoFeed t → NoFeed (s ++ t)
NoFeed-append [] t h k = k
NoFeed-append (c ∷ s) t (h, hs) k = (h, NoFeed-append s t hs k)

-- The payload type is digits.
span-is_digit-NoFeed : (s : Text) → NoFeed (span is_digit s).0
unfolding span
span-is_digit-NoFeed [] = tt
span-is_digit-NoFeed (c ∷ s) = elim (Bool-cases (is_digit c)) [
  | inl e ↦ rw e (ground arith, span-is_digit-NoFeed s)
  | inr e ↦ rw e tt
]

numbered-run : (r : Text × Text) (pt : Text) → numbered r ≡ some pt → pt ≡ r.0
numbered-run ([], after) pt e = cc
numbered-run (c ∷ run, after) pt e = ground arith

matched-NoFeed : (o : Option Text) (pt : Text) → matched o ≡ some pt → NoFeed pt
unfolding matched
matched-NoFeed none pt e = cc
matched-NoFeed (some after) pt e =
    subst NoFeed (sym (numbered-run (span is_digit after) pt e)) (span-is_digit-NoFeed after)

opus_pt-NoFeed : (ls : List Text) (pt : Text) → opus_pt ls ≡ some pt → NoFeed pt
unfolding opus_pt
opus_pt-NoFeed [] pt e = cc
opus_pt-NoFeed (l ∷ ls) pt e = elim (Option-cases (rtpmap_opus l)) [
  | inl f ↦ opus_pt-NoFeed ls pt (ap (λ o. or_else o (opus_pt ls)) (sym f) ∙ e)
  | inr (n, f) ↦
      unfold rtpmap_opus in
      matched-NoFeed (strip_folded (codes "a=rtpmap:") l) pt
        (f ∙ (ap (λ o. or_else o (opus_pt ls)) (sym f) ∙ e))
]

module _ (pt : Text) (digits : NoFeed pt) where
  inserted-IsLine : IsLine (fmtp_of pt ++ enhanced_params)
  unfolding fmtp_of
  inserted-IsLine = NoFeed-IsLine (codes "a=fmtp:" ++ (pt ++ codes " ") ++ enhanced_params) (
      NoFeed-append (codes "a=fmtp:" ++ (pt ++ codes " ")) enhanced_params
        (NoFeed-append (codes "a=fmtp:") (pt ++ codes " ") (NoFeed-has_feed (codes "a=fmtp:") refl)
          (NoFeed-append pt (codes " ") digits (NoFeed-has_feed (codes " ") refl)))
        (NoFeed-has_feed enhanced_params refl))

  insert_fmtp-IsLine : (ls : List Text) → All IsLine ls → All IsLine (insert_fmtp pt ls)
  unfolding insert_fmtp
  insert_fmtp-IsLine [] h = tt
  insert_fmtp-IsLine (l ∷ ls) (h, hs) = elim (Bool-cases (is_some (strip (rtpmap_of pt) l))) [
    | inl e ↦ rw e (h, (inserted-IsLine, hs))
    | inr e ↦ rw e (h, insert_fmtp-IsLine ls hs)
  ]

  map-AreLines : (ls : List Text) → AreLines ls → AreLines (map (enhance_line pt) ls)
  map-AreLines [] h = h
  map-AreLines (l ∷ ls) h = map-enhance_line-IsLine pt (l ∷ ls) h

  insert_fmtp-AreLines : (ls : List Text) → AreLines ls → AreLines (insert_fmtp pt ls)
  unfolding insert_fmtp
  insert_fmtp-AreLines [] h = h
  insert_fmtp-AreLines (l ∷ ls) (h, hs) = elim (Bool-cases (is_some (strip (rtpmap_of pt) l))) [
    | inl e ↦ rw e (h, (inserted-IsLine, hs))
    | inr e ↦ rw e (h, insert_fmtp-IsLine ls hs)
  ]

  enhance_lines-AreLines : (ls : List Text) → AreLines ls → AreLines (enhance_lines pt ls)
  unfolding enhance_lines
  enhance_lines-AreLines ls h = elim (Bool-cases (any (is_fmtp pt) ls)) [
    | inl e ↦ rw e (map-AreLines ls h)
    | inr e ↦ rw e (insert_fmtp-AreLines (map (enhance_line pt) ls) (map-AreLines ls h))
  ]

-- `optimizeAudioSdp` of what it gave changes nothing, whatever the description.
pub optimize_audio_sdp_idem :
    (sdp : Text) → optimize_audio_sdp (optimize_audio_sdp sdp) ≡ optimize_audio_sdp sdp
optimize_audio_sdp_idem sdp = elim (Option-cases (opus_pt (split_lines sdp))) [
  | inl e ↦
      ap optimize_audio_sdp (unfold optimize_audio_sdp in ap (optimized sdp (split_lines sdp)) e)
  | inr (pt, e) ↦
      let lines = enhance_lines pt (split_lines sdp) in
      let once : optimize_audio_sdp sdp ≡ join_lines lines =
        unfold optimize_audio_sdp in ap (optimized sdp (split_lines sdp)) e in
      let again : split_lines (join_lines lines) ≡ lines = split_lines-join_lines lines (
        enhance_lines-AreLines pt (opus_pt-NoFeed (split_lines sdp) pt e) (split_lines sdp)
          (split_lines-AreLines sdp)) in
      let twice : optimize_audio_sdp (join_lines lines) ≡ join_lines (enhance_lines pt lines) =
        unfold optimize_audio_sdp in
        ap₂ (optimized (join_lines lines)) again
          (ap opus_pt again ∙ opus_pt-enhance_lines pt (split_lines sdp) ∙ e) in
      ap optimize_audio_sdp once
      ∙ twice
      ∙ ap join_lines (enhance_lines_idem pt (split_lines sdp))
      ∙ sym once
]
