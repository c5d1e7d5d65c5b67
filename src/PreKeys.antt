-- ===== src/PreKeys.antt =====
-- packages/client-web/src/lib/prekey-manager.ts: `PreKeyManager`, which fills the pool of one-time keys up. The
-- answers of the service, the clock and random bytes are arguments; a count is a number.
use genchat.Base.{
  ℕ, zero, suc, ◌+◌, ◌%◌, ◌≡◌, refl, String, ◌==◌, Bool, true, false, ◌||◌, Option, none, some,
  List, [], ◌∷◌, ltb, length, if◌then◌else◌, arith,
}

-- What `checkAndReplenish` awaits.
pub data Awaited : Type 0 where
  nothing count : Awaited
  upload : ℕ → Awaited

pub record OneTimeKey : Type 0 where
  pub key_id : ℕ
  pub public_key : List ℕ

pub record PreKeyManager : Type 0 where
  pub is_checking : Bool
  pub awaited : Awaited
  -- The batches that were sent, and what the calls gave, where -1 is none.
  pub uploads : List (List OneTimeKey)
  pub results : List (Option ℕ)

abbrev pub new_manager : PreKeyManager
new_manager = record { is_checking = false; awaited = nothing; uploads = []; results = [] }

abbrev gives : Option ℕ → PreKeyManager → PreKeyManager
gives r m = record m { results = r ∷ m.results }

-- The end of a call, with its `finally`.
abbrev ends : Option ℕ → PreKeyManager → PreKeyManager
ends r m = record m { is_checking = false; awaited = nothing; results = r ∷ m.results }

unfoldable pub check_and_replenish : String → String → PreKeyManager → PreKeyManager
check_and_replenish token device m =
    if m.is_checking || (token == "" || device == "")
    then gives none m
    else record m { is_checking = true; awaited = count }

-- As many keys as there are rounds, from an id on; a public key is 32 random bytes.
unfoldable pub make_keys : ℕ → ℕ → (ℕ → List ℕ) → List OneTimeKey
make_keys zero id random = []
make_keys (suc rounds) id random =
    record { key_id = id; public_key = random id } ∷ make_keys rounds (suc id) random

-- `none` is a status that is not ok or an exception.
unfoldable pub count_answered : ℕ → (ℕ → List ℕ) → Option ℕ → PreKeyManager → PreKeyManager
count_answered now random answer m = elim m.awaited [
  | count ↦ elim answer [
    | none ↦ ends none m
    | some n ↦
        if ltb n 20
        then record m {
          awaited = upload n;
          uploads = make_keys 50 (now % 1000000) random ∷ m.uploads;
        }
        else ends (some n) m
  ]
  | _ ↦ m
]

-- An ok answer, another status, or an exception.
pub data Uploaded : Type 0 where
  accepted refused threw : Uploaded

abbrev estimate : ℕ → Uploaded → Option ℕ
estimate n accepted = some (n + 50)
estimate n refused = some n
estimate n threw = none

unfoldable pub upload_answered : Uploaded → PreKeyManager → PreKeyManager
upload_answered answer m = elim m.awaited [ upload n ↦ ends (estimate n answer) m | _ ↦ m ]

pub data KeyEvent : Type 0 where
  checks : String → String → KeyEvent
  counted : ℕ → (ℕ → List ℕ) → Option ℕ → KeyEvent
  uploaded : Uploaded → KeyEvent

unfoldable pub key_step : KeyEvent → PreKeyManager → PreKeyManager
key_step (checks token device) m = check_and_replenish token device m
key_step (counted now random answer) m = count_answered now random answer m
key_step (uploaded answer) m = upload_answered answer m

unfoldable pub key_run : List KeyEvent → PreKeyManager → PreKeyManager
key_run [] m = m
key_run (e ∷ es) m = key_run es (key_step e m)

abbrev waits : Awaited → Bool
waits nothing = false
waits _ = true

length-make_keys :
    (rounds id : ℕ) (random : ℕ → List ℕ) → length (make_keys rounds id random) ≡ rounds
unfolding make_keys
length-make_keys zero id random = refl
length-make_keys (suc rounds) id random = omega (arith, length-make_keys rounds (suc id) random)

key_step-waits :
    (e : KeyEvent) (m : PreKeyManager)
    → m.is_checking ≡ waits m.awaited
    → (key_step e m).is_checking ≡ waits (key_step e m).awaited
unfolding key_step check_and_replenish count_answered upload_answered
key_step-waits (checks token device) m h = ground arith
key_step-waits (counted now random answer) m h = ground arith
key_step-waits (uploaded answer) m h = ground arith

-- In every run the flag is set exactly while a call awaits an answer, so that no second one starts and every end
-- of a call clears it.
key_run-waits :
    (es : List KeyEvent) (m : PreKeyManager)
    → m.is_checking ≡ waits m.awaited
    → (key_run es m).is_checking ≡ waits (key_run es m).awaited
unfolding key_run
key_run-waits [] m h = h
key_run-waits (e ∷ es) m h = key_run-waits es (key_step e m) (key_step-waits e m h)
