-- ===== src/FeatureFlags/Following.antt =====
-- packages/client-web/src/lib/feature-flags.ts: components and the flags that they follow.
use genchat.Base.{
  ℕ, String, ◌≡◌, refl, sym, ap, subst, Bool, true, false, none, some, List, [], ◌∷◌, map, All,
  All-filter, lookup, insert, lookup-insert, arith,
}
use genchat.WebStorage.{WebStorage}
use genchat.FeatureFlags.{
  FeatureFlagsMap, Hook, Flags, failed, refused, answered, initial_flags, or_false, spread,
  handle_update, fetch_feature_flags, or_restored, is_feature_enabled, mount, unmount, FlagEvent,
  fetches, mounts, unmounts, flag_step, flag_run,
}

abbrev is_empty : FeatureFlagsMap → Bool
is_empty [] = true
is_empty (flag ∷ flags) = false

-- A component shows what the flags in memory say.
abbrev Follows : FeatureFlagsMap → Hook → Type 0
Follows flags h = h.enabled ≡ or_false (lookup h.flag_name flags)

abbrev UpToDate : Flags → Type 0
UpToDate f = (is_empty f.cached_flags ≡ false) × All (Follows f.cached_flags) f.subscribers

is_empty-insert :
    (name : String) (on : Bool) (flags : FeatureFlagsMap) → is_empty (insert name on flags) ≡ false
unfolding insert
is_empty-insert name on [] = refl
is_empty-insert name on ((other, old) ∷ flags) = ground arith

is_empty-spread :
    (flags features : FeatureFlagsMap)
    → is_empty flags ≡ false
    → is_empty (spread flags features) ≡ false
unfolding spread
is_empty-spread flags [] e = e
is_empty-spread flags ((name, on) ∷ features) e =
    is_empty-spread (insert name on flags) features (is_empty-insert name on flags)

lookup-spread-none :
    (key : String) (flags features : FeatureFlagsMap)
    → lookup key (spread flags features) ≡ none
    → lookup key flags ≡ none
unfolding spread
lookup-spread-none key flags [] e = e
lookup-spread-none key flags ((name, on) ∷ features) e = ground (
  arith,
  lookup-spread-none key (insert name on flags) features e,
  lookup-insert name key on flags,
)

handle_update-Follows :
    (flags features : FeatureFlagsMap) (h : Hook)
    → Follows flags h
    → Follows (spread flags features) (handle_update (spread flags features) h)
handle_update-Follows flags features h e =
    ground (arith, lookup-spread-none h.flag_name flags features)

or_restored-cached :
    (flags : FeatureFlagsMap) (s : WebStorage FeatureFlagsMap)
    → is_empty flags ≡ false
    → or_restored flags s ≡ flags
or_restored-cached [] s e = ground arith
or_restored-cached (flag ∷ flags) s e = refl

-- While a flag is in memory, the flags in localStorage are not read, and asking for one changes nothing.
is_feature_enabled-cached :
    (name : String) (f : Flags)
    → is_empty f.cached_flags ≡ false
    → is_feature_enabled name f ≡ (f, or_false (lookup name f.cached_flags))
unfolding is_feature_enabled
is_feature_enabled-cached name f e = rw (or_restored-cached f.cached_flags f.storage e) refl

abbrev mounted : ℕ → String → Flags → FeatureFlagsMap → Flags
mounted n name f flags = record f {
  cached_flags = flags;
  subscribers =
      record { component = n; flag_name = name; enabled = or_false (lookup name flags) }
      ∷ f.subscribers;
}

mount-cached :
    (n : ℕ) (name : String) (f : Flags)
    → is_empty f.cached_flags ≡ false
    → mount n name f ≡ mounted n name f f.cached_flags
unfolding mount is_feature_enabled
mount-cached n name f e = ap (mounted n name f) (or_restored-cached f.cached_flags f.storage e)

Follows-map :
    (flags features : FeatureFlagsMap) (hooks : List Hook)
    → All (Follows flags) hooks
    → All (Follows (spread flags features)) (map (handle_update (spread flags features)) hooks)
Follows-map flags features [] u = tt
Follows-map flags features (h ∷ hooks) (e, u) =
    (handle_update-Follows flags features h e, Follows-map flags features hooks u)

flag_step-UpToDate : (e : FlagEvent) (f : Flags) → UpToDate f → UpToDate (flag_step e f)
unfolding flag_step fetch_feature_flags mount unmount
flag_step-UpToDate (fetches failed) f u = u
flag_step-UpToDate (fetches refused) f u = u
flag_step-UpToDate (fetches (answered none)) f u = u
flag_step-UpToDate (fetches (answered (some features))) f (e, u) =
    (is_empty-spread f.cached_flags features e, Follows-map f.cached_flags features f.subscribers u)
flag_step-UpToDate (mounts n name) f (e, u) =
    subst UpToDate (sym (mount-cached n name f e)) (e, (refl, u))
flag_step-UpToDate (unmounts n) f (e, u) =
    (e, All-filter (Follows f.cached_flags) _ f.subscribers u)

-- Whatever responses come and whatever components are mounted and unmounted, each component shows
-- what the flags in memory say of its flag, or false where they say nothing.
flag_run-UpToDate : (es : List FlagEvent) (f : Flags) → UpToDate f → UpToDate (flag_run es f)
unfolding flag_run
flag_run-UpToDate [] f u = u
flag_run-UpToDate (e ∷ es) f u = flag_run-UpToDate es (flag_step e f) (flag_step-UpToDate e f u)

initial_flags-UpToDate : (s : WebStorage FeatureFlagsMap) → UpToDate (initial_flags s)
initial_flags-UpToDate s = (refl, tt)
