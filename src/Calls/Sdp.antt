-- ===== src/Calls/Sdp.antt =====
-- packages/client-web/src/lib/webrtc-manager.ts: `optimizeAudioSdp`. A text is the list of its code units.
pub mod Parameters
pub mod Lines
pub mod Breaks
pub mod Idempotent
use genchat.Base.{
  ℕ, ◌+◌, String, Bool, true, false, ◌&&◌, ◌||◌, Option, none, some, List, [], ◌∷◌, ◌++◌, nat_eq,
  leb, if◌then◌else◌, map, any,
}
use genchat.Codec.Hex.{codes}
use genchat.Codec.Pairs.{is_space}

abbrev pub Text : Type 0
Text = List ℕ

-- `s.startsWith(prefix)`, with what comes after it.
unfoldable pub strip : Text → Text → Option Text
strip [] s = some s
strip (c ∷ prefix) [] = none
strip (c ∷ prefix) (d ∷ s) = if nat_eq c d then strip prefix s else none

abbrev pub is_some : {A : Type 0} → Option A → Bool
is_some none = false
is_some (some a) = true

unfoldable pub includes : Text → Text → Bool
unfolding strip
includes [] part = is_some (strip part [])
includes (c ∷ s) part = is_some (strip part (c ∷ s)) || includes s part

-- `sdp.split('\r\n')`: the line that was begun, and the rest.
abbrev pub begin : ℕ → List Text → List Text
begin c [] = (c ∷ []) ∷ []
begin c (line ∷ lines) = (c ∷ line) ∷ lines

unfoldable pub split_lines : Text → List Text
split_lines [] = [] ∷ []
split_lines (c ∷ []) = (c ∷ []) ∷ []
split_lines (c ∷ (d ∷ s)) =
    let here = split_lines s in
    let later = split_lines (d ∷ s) in
    if nat_eq c 13 && nat_eq d 10 then [] ∷ here else begin c later

-- `lines.join('\r\n')`
unfoldable pub join_lines : List Text → Text
join_lines [] = []
join_lines (line ∷ []) = line
join_lines (line ∷ (next ∷ lines)) = line ++ (13 ∷ (10 ∷ join_lines (next ∷ lines)))

abbrev pub is_digit : ℕ → Bool
is_digit c = leb 48 c && leb c 57

abbrev lower : ℕ → ℕ
lower c = if leb 65 c && leb c 90 then c + 32 else c

-- `strip` by the flag `i`.
unfoldable pub strip_folded : Text → Text → Option Text
strip_folded [] s = some s
strip_folded (c ∷ prefix) [] = none
strip_folded (c ∷ prefix) (d ∷ s) =
    if nat_eq (lower c) (lower d) then strip_folded prefix s else none

-- The longest run of characters that pass, and the rest.
unfoldable pub span : (ℕ → Bool) → Text → Text × Text
span p [] = ([], [])
span p (c ∷ s) = let (run, after) = span p s in if p c then (c ∷ run, after) else ([], c ∷ s)

abbrev spaced : Text × Text → Option Text
spaced ([], after) = none
spaced (c ∷ run, after) = strip_folded (codes "opus/48000") after

abbrev pub numbered : Text × Text → Option Text
numbered ([], after) = none
numbered (c ∷ run, after) = elim (spaced (span is_space after)) [
  | none ↦ none
  | some rest ↦ some (c ∷ run)
]

unfoldable pub matched : Option Text → Option Text
unfolding strip_folded span
matched none = none
matched (some after) = numbered (span is_digit after)

-- `line.match(/^a=rtpmap:(\d+)\s+opus\/48000/i)`: the payload type.
unfoldable pub rtpmap_opus : Text → Option Text
unfolding matched strip_folded
rtpmap_opus line = matched (strip_folded (codes "a=rtpmap:") line)

abbrev pub or_else : {A : Type 0} → Option A → Option A → Option A
or_else none o = o
or_else (some a) o = some a

unfoldable pub opus_pt : List Text → Option Text
opus_pt [] = none
opus_pt (line ∷ lines) = or_else (rtpmap_opus line) (opus_pt lines)

unfoldable pub add_param : Text → Text → Text → Text
add_param key given params = if includes params key then params else params ++ given

-- What a parameter is looked for by, and what is added where it is not found.
abbrev pub parameters : List (Text × Text)
parameters =
    (codes "useinbandfec=", codes ";useinbandfec=1")
    ∷ (codes "usedtx=", codes ";usedtx=1")
    ∷ (codes "maxaveragebitrate=", codes ";maxaveragebitrate=64000")
    ∷ (codes "stereo=", codes ";stereo=0;sprop-stereo=0")
    ∷ (codes "cbr=", codes ";cbr=1")
    ∷ (codes "minptime=", codes ";minptime=10;maxptime=20")
    ∷ []

unfoldable pub add_each : List (Text × Text) → Text → Text
unfolding add_param
add_each [] params = params
add_each ((key, given) ∷ more) params = add_each more (add_param key given params)

unfoldable pub add_params : Text → Text
add_params params = add_each parameters params

abbrev enhanced_params : Text
enhanced_params =
    codes
      "minptime=10;maxptime=20;useinbandfec=1;usedtx=1;maxaveragebitrate=64000;stereo=0;sprop-stereo=0;cbr=1"

unfoldable pub fmtp_of : Text → Text
fmtp_of pt = codes "a=fmtp:" ++ (pt ++ codes " ")

abbrev pub rtpmap_of : Text → Text
rtpmap_of pt = codes "a=rtpmap:" ++ (pt ++ codes " ")

abbrev pub with_params : Text → Text → Option Text → Text
with_params pt line none = line
with_params pt line (some params) = fmtp_of pt ++ add_params params

-- The line, with the parameters that it lacks if it has those of the payload type.
unfoldable pub enhance_line : Text → Text → Text
enhance_line pt line = with_params pt line (strip (fmtp_of pt) line)

abbrev pub is_fmtp : Text → Text → Bool
is_fmtp pt line = is_some (strip (fmtp_of pt) line)

-- `splice(rtpmapIdx + 1, 0, …)`, where `findIndex` finds a line.
unfoldable pub insert_fmtp : Text → List Text → List Text
insert_fmtp pt [] = []
insert_fmtp pt (line ∷ lines) =
    if is_some (strip (rtpmap_of pt) line)
    then line ∷ ((fmtp_of pt ++ enhanced_params) ∷ lines)
    else line ∷ insert_fmtp pt lines

unfoldable pub enhance_lines : Text → List Text → List Text
unfolding enhance_line insert_fmtp
enhance_lines pt lines =
    let new_lines = map (enhance_line pt) lines in
    if any (is_fmtp pt) lines then new_lines else insert_fmtp pt new_lines

-- A text without a line of opus is given back as it is.
abbrev pub optimized : Text → List Text → Option Text → Text
optimized sdp lines none = sdp
optimized sdp lines (some pt) = join_lines (enhance_lines pt lines)

unfoldable pub optimize_audio_sdp : Text → Text
optimize_audio_sdp sdp = optimized sdp (split_lines sdp) (opus_pt (split_lines sdp))
