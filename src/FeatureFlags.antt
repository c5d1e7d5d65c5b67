-- ===== src/FeatureFlags.antt =====
-- packages/client-web/src/lib/feature-flags.ts: the flags in memory and in localStorage, and the components
-- that follow one through `useFeatureFlag`. What `fetch` and `json` give is an argument.
pub mod Following
use genchat.Base.{
  ℕ, nat_eq, String, ◌==◌, ◌≡◌, refl, sym, ap, subst, Bool, true, false, not, Option, none, some,
  List, [], ◌∷◌, map, filter, All, All-filter, All-map, if◌then◌else◌, lookup, insert,
  lookup-insert, arith,
}
use genchat.WebStorage.{WebStorage, Read, found, read, try_write}

abbrev pub FeatureFlagsMap : Type 0
FeatureFlagsMap = List (String × Bool)

-- A mounted component and its state `enabled`.
pub record Hook : Type 0 where
  pub component : ℕ
  pub flag_name : String
  pub enabled : Bool

pub record Flags : Type 0 where
  pub cached_flags : FeatureFlagsMap
  pub subscribers : List Hook
  pub storage : WebStorage FeatureFlagsMap

-- `failed` is an exception of `fetch` or `json`, `refused` a response that is not ok, and `answered` the
-- `features` of one that is.
pub data Response : Type 0 where
  failed refused : Response
  answered : Option FeatureFlagsMap → Response

abbrev features_key : String
features_key = "genchat_features"

abbrev default_flags : FeatureFlagsMap
default_flags =
    ("device_linking", true)
    ∷ ("group_calling", true)
    ∷ ("ai_summary", true)
    ∷ ("protobuf_wire", true)
    ∷ []

abbrev pub initial_flags : WebStorage FeatureFlagsMap → Flags
initial_flags s = record { cached_flags = default_flags; subscribers = []; storage = s }

abbrev pub or_false : Option Bool → Bool
or_false none = false
or_false (some b) = b

-- `{ ...flags, ...features }`.
unfoldable pub spread : FeatureFlagsMap → FeatureFlagsMap → FeatureFlagsMap
spread flags [] = flags
spread flags ((name, on) ∷ features) = spread (insert name on flags) features

abbrev pub handle_update : FeatureFlagsMap → Hook → Hook
handle_update flags h = elim (lookup h.flag_name flags) [
  | none ↦ h
  | some on ↦ record h { enabled = on }
]

unfoldable pub fetch_feature_flags : Response → Flags → Flags × FeatureFlagsMap
fetch_feature_flags (answered (some features)) f =
    let flags = spread f.cached_flags features in
    (
      record f {
        cached_flags = flags;
        subscribers = map (handle_update flags) f.subscribers;
        storage = try_write features_key flags f.storage;
      },
      flags,
    )
fetch_feature_flags r f = (f, f.cached_flags)

abbrev restored : Read FeatureFlagsMap → FeatureFlagsMap
restored (found flags) = flags
restored r = []

abbrev pub or_restored : FeatureFlagsMap → WebStorage FeatureFlagsMap → FeatureFlagsMap
or_restored [] s = restored (read features_key s)
or_restored (flag ∷ flags) s = flag ∷ flags

unfoldable pub is_feature_enabled : String → Flags → Flags × Bool
is_feature_enabled name f =
    let flags = or_restored f.cached_flags f.storage in
    (record f { cached_flags = flags }, or_false (lookup name flags))

-- The first rendering of a component, with its effect.
unfoldable pub mount : ℕ → String → Flags → Flags
mount n name f =
    let (f', on) = is_feature_enabled name f in
    record f' {
      subscribers = record { component = n; flag_name = name; enabled = on } ∷ f'.subscribers;
    }

unfoldable pub unmount : ℕ → Flags → Flags
unmount n f = record f { subscribers = filter (λ h. not (nat_eq h.component n)) f.subscribers }

pub data FlagEvent : Type 0 where
  fetches : Response → FlagEvent
  mounts : ℕ → String → FlagEvent
  unmounts : ℕ → FlagEvent

unfoldable pub flag_step : FlagEvent → Flags → Flags
flag_step (fetches r) f = (fetch_feature_flags r f).0
flag_step (mounts n name) f = mount n name f
flag_step (unmounts n) f = unmount n f

unfoldable pub flag_run : List FlagEvent → Flags → Flags
flag_run [] f = f
flag_run (e ∷ es) f = flag_run es (flag_step e f)
