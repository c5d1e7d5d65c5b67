-- ===== src/Calls/Media.antt =====
-- packages/client-web/src/lib/webrtc-manager.ts: which tracks `startLocalStream` acquires. What the browser gives
-- is an argument.
use genchat.Base.{ℕ, ◌≡◌, Bool, true, Option, none, some, if◌then◌else◌, arith}

pub data CallType : Type 0 where
  audio video : CallType

-- What each capture gives; `none` is an exception. A track is its number.
pub record Devices : Type 0 where
  -- `getUserMedia` for the call, with the first audio and video track of its stream.
  pub primary : Option (Option ℕ × Option ℕ)
  -- Whether `getUserMedia` for the microphone alone succeeds.
  pub microphone : Bool
  pub silent : Option ℕ
  pub synthetic : Option ℕ
  -- `allowSyntheticFallback`, or the mode of the build.
  pub allow_fallback : Bool

abbrev wanted : CallType → Option ℕ → Option ℕ
wanted audio track = none
wanted video track = track

-- The audio track of the fallback: the stream of the microphone is not kept.
unfoldable pub fallback_audio : Devices → Option (Option ℕ)
fallback_audio d =
    if d.microphone then some none else if d.allow_fallback then some d.silent else none

-- The video track of the fallback.
unfoldable pub fallback_video : CallType → Devices → Option (Option ℕ)
fallback_video audio d = some none
fallback_video video d =
    if d.allow_fallback
    then elim d.synthetic [ none ↦ none | some track ↦ some (some track) ]
    else none

abbrev both : Option (Option ℕ) → Option (Option ℕ) → Option (Option ℕ × Option ℕ)
both none v = none
both (some a) none = none
both (some a) (some v) = some (a, v)

unfoldable pub acquired_tracks : CallType → Devices → Option (Option ℕ × Option ℕ)
unfolding fallback_audio fallback_video
acquired_tracks kind d = elim d.primary [
  | some (a, v) ↦ some (a, wanted kind v)
  | none ↦ both (fallback_audio d) (fallback_video kind d)
]

-- Without a track, an error.
abbrev some_track : Option (Option ℕ × Option ℕ) → Option (Option ℕ × Option ℕ)
some_track (some (none, none)) = none
some_track tracks = tracks

unfoldable pub acquire : CallType → Devices → Option (Option ℕ × Option ℕ)
unfolding acquired_tracks
acquire kind d = some_track (acquired_tracks kind d)

-- Where the first capture fails and the microphone alone succeeds, an audio call has no stream, and a video call is
-- silent.
pub acquire_microphone :
    (d : Devices)
    → d.primary ≡ none
    → d.microphone ≡ true
    → (acquire audio d ≡ none) × ((a v : Option ℕ) → acquire video d ≡ some (a, v) → a ≡ none)
unfolding acquire
acquire_microphone d p m = (ground arith, λ a v e. ground arith)
