-- ===== src/Calls/Sdp/Parameters.antt =====
-- packages/client-web/src/lib/webrtc-manager.ts: the parameters that `optimizeAudioSdp` adds are there
-- afterwards, so that it adds none a second time.
use genchat.Base.{◌≡◌, refl, true, some, List, [], ◌∷◌, ◌++◌, nat_eq_iff, All, arith}
use genchat.Calls.Sdp.{Text, strip, is_some, includes, parameters, add_param, add_each, add_params}

pub strip-append : (prefix s : Text) → strip prefix (prefix ++ s) ≡ some s
unfolding strip
strip-append [] s = refl
strip-append (c ∷ prefix) s = ground (arith, nat_eq_iff c c, strip-append prefix s)

-- What `strip` leaves is what stands after the prefix.
pub append-strip : (prefix s r : Text) → strip prefix s ≡ some r → s ≡ prefix ++ r
unfolding strip
append-strip [] s r e = cc
append-strip (c ∷ prefix) [] r e = cc
append-strip (c ∷ prefix) (d ∷ s) r e = ground (arith, nat_eq_iff c d, append-strip prefix s r)

strip_prefix-append :
    (prefix s t : Text) → is_some (strip prefix s) ≡ true → is_some (strip prefix (s ++ t)) ≡ true
unfolding strip
strip_prefix-append [] s t h = refl
strip_prefix-append (c ∷ prefix) [] t h = cc
strip_prefix-append (c ∷ prefix) (d ∷ s) t h = ground (arith, strip_prefix-append prefix s t)

includes-append_left : (s t part : Text) → includes s part ≡ true → includes (s ++ t) part ≡ true
unfolding includes
includes-append_left [] [] part h = h
includes-append_left [] (c ∷ t) part h = ground (arith, strip_prefix-append part [] (c ∷ t))
includes-append_left (c ∷ s) t part h =
    ground (arith, strip_prefix-append part (c ∷ s) t, includes-append_left s t part)

includes-append_right : (s t part : Text) → includes t part ≡ true → includes (s ++ t) part ≡ true
unfolding includes
includes-append_right [] t part h = h
includes-append_right (c ∷ s) t part h = ground (arith, includes-append_right s t part)

includes-add_param_other :
    (part key given params : Text)
    → includes params part ≡ true
    → includes (add_param key given params) part ≡ true
unfolding add_param
includes-add_param_other part key given params h =
    ground (arith, includes-append_left params given part)

includes-add_param :
    (key given params : Text)
    → includes given key ≡ true
    → includes (add_param key given params) key ≡ true
unfolding add_param
includes-add_param key given params h = ground (arith, includes-append_right params given key)

abbrev Brings : Text × Text → Type 0
Brings (key, given) = includes given key ≡ true

abbrev Has : Text → Text × Text → Type 0
Has params (key, given) = includes params key ≡ true

includes-add_each :
    (part : Text) (all : List (Text × Text)) (params : Text)
    → includes params part ≡ true
    → includes (add_each all params) part ≡ true
unfolding add_each
includes-add_each part [] params h = h
includes-add_each part ((key, given) ∷ all) params h =
    includes-add_each part all (add_param key given params)
      (includes-add_param_other part key given params h)

add_each-Has :
    (all : List (Text × Text)) (params : Text)
    → All Brings all
    → All (Has (add_each all params)) all
unfolding add_each
add_each-Has [] params b = tt
add_each-Has ((key, given) ∷ all) params (b, bs) = (
  includes-add_each key all (add_param key given params) (includes-add_param key given params b),
  add_each-Has all (add_param key given params) bs,
)

add_each_of-Has :
    (all : List (Text × Text)) (params : Text) → All (Has params) all → add_each all params ≡ params
unfolding add_each add_param
add_each_of-Has [] params h = refl
add_each_of-Has ((key, given) ∷ all) params (h, hs) = rw h (add_each_of-Has all params hs)

parameters-Brings : All Brings parameters
unfolding includes strip
parameters-Brings = (refl, (refl, (refl, (refl, (refl, (refl, tt))))))

pub add_params_idem : (params : Text) → add_params (add_params params) ≡ add_params params
unfolding add_params
add_params_idem params =
    add_each_of-Has parameters (add_each parameters params)
      (add_each-Has parameters params parameters-Brings)
