-- ===== src/Gateway/Backoff.antt =====
-- packages/client-web/src/lib/gateway-client.ts: the delays of `scheduleReconnect`.
use genchat.Base.{ℕ, ◌+◌, ◌-◌, ◌*◌, ◌/◌, ◌^◌, min, max}

abbrev pub max_reconnect_attempts : ℕ
max_reconnect_attempts = 10

abbrev reconnect_interval : ℕ
reconnect_interval = 2000

-- `Math.random()` is a multiple of 2 ^ -53 below 1.
abbrev random_unit : ℕ
random_unit = 9007199254740992

-- `Math.min(2000 * Math.pow(1.5, attempts - 1), 30000)`, times 2 ^ (attempts - 1)
abbrev scaled_backoff : ℕ → ℕ
scaled_backoff attempts = min (reconnect_interval * 3 ^ (attempts - 1)) (30000 * 2 ^ (attempts - 1))

-- `Math.max(500, Math.round(expBackoff * (0.5 + Math.random() * 0.5)))`, exactly.
unfoldable pub backoff : ℕ → ℕ → ℕ
backoff attempts random = max 500 (
    (scaled_backoff attempts * (random_unit + random) + random_unit * 2 ^ (attempts - 1))
    / (2 * random_unit * 2 ^ (attempts - 1)))
