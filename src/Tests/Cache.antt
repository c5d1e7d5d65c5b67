-- ===== src/Tests/Cache.antt =====
-- The theorems on the encrypted cache and on the search, at concrete inputs.
use Prim.Native.String.{◌++◌}
use genchat.Base.{
  ◌≤◌, String, ◌==◌, refl, false, none, some, List, [], ◌∷◌, if◌then◌else◌, arith, In, All,
  IsSorted, length,
}
use genchat.Codec.Hex.{bytes_to_hex, hex_digit}
use genchat.LocalDb.Message.{StoredMessage, fresh}
use genchat.LocalDb.Store.{completes}
use genchat.LocalDb.Search.{TextOps, ranked, terms_of, pool, search}
use genchat.LocalDb.Search.Found.{IsFound, search_correct}
use genchat.LocalCache.{envelope, save_message, load_messages}
use genchat.LocalCache.Laws.{load-save}
use genchat.Tests.Sample.{sample, sample-Lawful}
use genchat.Tests.Store.{hello, table, store}

abbrev cipher : String
cipher = sample.btoa (sample.encrypt (7 ∷ []) (5 ∷ []) (sample.encode "h"))

abbrev greeting : StoredMessage
greeting = record hello { text = some "h" }

abbrev splits : String → List String
splits s =
    if s == envelope (sample.btoa (5 ∷ [])) cipher
    then "ENC_GCM" ∷ sample.btoa (5 ∷ []) ∷ cipher ∷ []
    else s ∷ []

load-save_example : In greeting (
    load_messages sample splits 20 "c"
      (some (7 ∷ []))
      completes
      (save_message sample splits 15 greeting (some (7 ∷ [])) (5 ∷ []) completes store).0)
unfolding fresh bytes_to_hex hex_digit
load-save_example =
    load-save sample splits sample-Lawful (7 ∷ []) (5 ∷ []) "h" greeting 15 20 store table
      (omega arith, tt) refl refl refl refl refl refl

abbrev plain : TextOps
plain = record {
  words = λ q. q ∷ [];
  to_lower = λ t. t;
  index_of = λ t w. if t == w then some 0 else none;
  ends_with_star = λ t. false;
  without_last = λ t. t;
  separator_at = λ t i. false;
  slice = λ t i j. t;
  size = λ t. 5;
  joined = λ s t. s ++ t;
}

search_correct_example :
    let hits = search plain 20 "hello" "c" completes store in
    All (IsFound plain 20 (terms_of plain "hello") (pool plain 20 "c" completes store)) hits
    × IsSorted (ranked plain) hits
    × (length hits ≤ 30)
search_correct_example = search_correct plain 20 "hello" "c" completes store
