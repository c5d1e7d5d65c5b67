-- ===== src/Transport/Backoff.antt =====
-- The delay before a reconnection: `_scheduleReconnect`.
use native.Mathlib.Nat.{mul-le-mul_left}
use genchat.Base.{ℕ, zero, suc, ◌+◌, ◌*◌, ◌/◌, ◌^◌, ◌≤◌, ◌<◌, ◌≡◌, refl, min, max, arith}

-- `Math.random()` is a multiple of 2 ^ -53 below 1.
abbrev pub random_unit : ℕ
random_unit = 9007199254740992

-- `Math.min(1000 * Math.pow(2, this.reconnectAttempts), MAX_BACKOFF_MS)`
unfoldable pub exp_backoff : ℕ → ℕ
exp_backoff attempts = min (1000 * 2 ^ attempts) 30000

-- `Math.max(250, Math.round(expBackoff * (0.5 + Math.random() * 0.5)))`, exactly: a half is rounded up.
unfoldable pub backoff : ℕ → ℕ → ℕ
unfolding exp_backoff
backoff attempts random =
    max 250 ((exp_backoff attempts * (random_unit + random) + random_unit) / (2 * random_unit))

one-le-pow : (n : ℕ) → 1 ≤ 2 ^ n
one-le-pow zero = omega arith
one-le-pow (suc n) = omega (arith, one-le-pow n)

exp_backoff-bounds : (n : ℕ) → (1000 ≤ exp_backoff n) × (exp_backoff n ≤ 30000)
unfolding exp_backoff
exp_backoff-bounds n = (ground (arith, one-le-pow n), ground arith)

-- The rounded product, for a base and a random number of which nothing else is known.
rounded-bounds :
    (e r q : ℕ)
    → r < random_unit
    → q ≡ (e * (random_unit + r) + random_unit) / (2 * random_unit)
    → (e ≤ 2 * q) × (q ≤ e)
rounded-bounds e r q h d = (omega (arith, mul-le-mul_left e h), omega (arith, mul-le-mul_left e h))

-- The delay before the next attempt is at least half of the exponential backoff and at most all of it,
-- for every value of `Math.random()`; so it lies between half a second and thirty seconds.
pub backoff_bounds :
    (attempts random : ℕ)
    → random < random_unit
    → (exp_backoff attempts ≤ 2 * backoff attempts random)
      × (backoff attempts random ≤ exp_backoff attempts)
      × (500 ≤ backoff attempts random)
      × (backoff attempts random ≤ 30000)
unfolding backoff
backoff_bounds attempts random h =
    let (l, u) = rounded-bounds (exp_backoff attempts) random _ h refl in
    let (b, c) = exp_backoff-bounds attempts in
    (
      ground (arith, l, u, b, c),
      ground (arith, l, u, b, c),
      ground (arith, l, u, b, c),
      ground (arith, l, u, b, c),
    )
