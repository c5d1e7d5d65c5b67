-- ===== src/Calls/Servers.antt =====
-- packages/client-web/src/lib/webrtc-manager.ts: `fetchDynamicIceServers` and `getIceConfiguration`. A server is a
-- text; the clock and what is fetched are arguments.
use genchat.Base.{
  ℕ, ◌+◌, ◌*◌, ◌≡◌, refl, String, Bool, Option, none, some, List, [], ◌∷◌, nat_eq, ltb,
  if◌then◌else◌,
}

-- `cachedIceServers` and `cachedIceServersExpiresAt`.
pub record IceCache : Type 0 where
  pub servers : Option (List String)
  pub expires_at : ℕ

abbrev empty_cache : IceCache
empty_cache = record { servers = none; expires_at = 0 }

abbrev default_ice_servers : List String
default_ice_servers =
    "stun:stun.l.google.com:19302" ∷ "stun:stun1.l.google.com:19302"
    ∷ "stun:stun2.l.google.com:19302" ∷ []

-- An exception, a response that is not ok, or the array `iceServers` with the time to live. Another
-- body is an array without elements.
pub data IceAnswer : Type 0 where
  failed refused : IceAnswer
  answered : List String → Option ℕ → IceAnswer

-- `(data.ttl || 3600) * 1000`
unfoldable pub ttl_ms : Option ℕ → ℕ
ttl_ms none = 3600 * 1000
ttl_ms (some ttl) = (if nat_eq ttl 0 then 3600 else ttl) * 1000

unfoldable pub fetched : ℕ → IceAnswer → IceCache → IceCache × List String
unfolding ttl_ms
fetched now (answered (s ∷ servers) ttl) c =
    (record { servers = some (s ∷ servers); expires_at = now + ttl_ms ttl }, s ∷ servers)
fetched now answer c = (c, default_ice_servers)

abbrev with_token : Bool → ℕ → IceAnswer → IceCache → IceCache × List String
with_token has_token now answer c =
    if has_token then fetched now answer c else (c, default_ice_servers)

unfoldable pub fetch_dynamic_ice_servers : Bool → ℕ → IceAnswer → IceCache → IceCache × List String
unfolding fetched
fetch_dynamic_ice_servers has_token now answer c = elim c.servers [
  | none ↦ with_token has_token now answer c
  | some servers ↦
      if ltb (now + 60000) c.expires_at then (c, servers) else with_token has_token now answer c
]

abbrev from_env : Option (Option (List String)) → List String
from_env (some (some servers)) = servers
from_env env = default_ice_servers

abbrev cached_or_env : Option (List String) → Option (Option (List String)) → List String
cached_or_env (some (s ∷ servers)) env = s ∷ servers
cached_or_env cached env = from_env env

-- With the servers given, and `VITE_ICE_SERVERS` where it is set, as what it parses to.
unfoldable pub get_ice_configuration :
    List String → Option (Option (List String)) → IceCache → List String
get_ice_configuration (s ∷ custom) env c = s ∷ custom
get_ice_configuration [] env c = cached_or_env c.servers env

-- Servers that were fetched once are used for every later call, however long ago they expired.
get_ice_configuration-expired :
    (now ttl : ℕ) (s : String) (servers : List String) (env : Option (Option (List String)))
    (c : IceCache)
    → get_ice_configuration [] env (fetched now (answered (s ∷ servers) (some ttl)) c).0
      ≡ s ∷ servers
unfolding get_ice_configuration fetched
get_ice_configuration-expired now ttl s servers env c = refl
