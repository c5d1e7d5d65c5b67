-- ===== src/Tests/Peer.antt =====
-- The theorems on a call between two, at concrete inputs.
use genchat.Base.{◌+◌, ◌==◌, ◌≡◌, refl, true, List, [], ◌∷◌, ◌++◌, map, amount}
use genchat.Codec.Hex.{codes}
use genchat.Calls.{
  new_manager, init_peer_connection, handle_offer, handle_answer, description_set,
  add_ice_candidate, drain, hangup,
}
use genchat.Calls.Steps.{
  CallEvent, offers, offer_comes, answer_comes, described, drains, candidate_comes, call_run,
  candidates, call_step,
}
use genchat.Calls.Candidates.{text_of, all_given, call_run-candidates}
use genchat.Calls.Sdp.{
  Text, split_lines, join_lines, optimize_audio_sdp, opus_pt, rtpmap_opus, matched, strip,
  strip_folded, span, enhance_lines, enhance_line, insert_fmtp, fmtp_of, add_params, add_each,
  add_param, includes,
}
use genchat.Calls.Sdp.Idempotent.{optimize_audio_sdp_idem}

-- A line of opus without a line of its parameters.
abbrev description : Text
description = codes "v=0" ++ (13 ∷ (10 ∷ codes "a=rtpmap:9 opus/48000"))

description_test :
    optimize_audio_sdp description
    ≡ description
      ++ (13
          ∷ (10
              ∷ codes
                  "a=fmtp:9 minptime=10;maxptime=20;useinbandfec=1;usedtx=1;maxaveragebitrate=64000;stereo=0;sprop-stereo=0;cbr=1"))
unfolding optimize_audio_sdp split_lines join_lines opus_pt rtpmap_opus matched enhance_lines
    enhance_line insert_fmtp strip strip_folded span fmtp_of add_params add_each add_param includes
description_test = refl

optimize_audio_sdp_idem_example :
    optimize_audio_sdp (optimize_audio_sdp description) ≡ optimize_audio_sdp description
optimize_audio_sdp_idem_example = optimize_audio_sdp_idem description

-- A call that is hung up, and one whose second candidate overtakes the first.
abbrev first_call : List CallEvent
first_call = candidate_comes "x" ∷ offers ∷ answer_comes ∷ []

abbrev second_call : List CallEvent
second_call =
    candidate_comes "c" ∷ offer_comes ∷ described ∷ candidate_comes "d" ∷ drains ∷ drains ∷ []

call_run-candidates_example :
    let m = hangup (call_run first_call new_manager) in
    let m' = call_run second_call m in
    (amount (λ c. c == "c") (map text_of m'.applied) + amount (λ c. c == "c") m'.pending_candidates
      ≡ amount (λ c. c == "c") (map text_of m.applied)
        + amount (λ c. c == "c") (candidates second_call))
    × (all_given m'.described m'.applied ≡ true)
call_run-candidates_example =
    call_run-candidates (λ c. c == "c") first_call second_call
      (refl, (refl, (refl, (refl, (refl, (refl, tt))))))

second_call_test :
    (call_run second_call (hangup (call_run first_call new_manager))).applied
    ≡ (1, "c") ∷ (1, "d") ∷ []
unfolding call_run call_step hangup init_peer_connection handle_offer handle_answer description_set
    add_ice_candidate drain
second_call_test = refl
