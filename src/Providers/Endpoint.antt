-- ===== src/Providers/Endpoint.antt =====
-- app/providers.py: `validate_endpoint_access`, which keeps the service from calling an endpoint
-- that its allowlist does not name. A network is a number that `ip_network` gives.
use ctyun_zos.Prelude.{
  ℕ, ◌-◌, ◌≡◌, ◌⊎◌, Bool, true, false, not, ◌&&◌, ◌||◌, Option, none, some, List, [], ◌∷◌, leb,
  ◌==◌, if◌then◌else◌, any, Text, codes, text_eq, length, drop, starts_with,
}
use ctyun_zos.Data.{storage_endpoint_forbidden, storage_endpoint_unreachable}
use ctyun_zos.World.{Env, Url, Address, Exn, provider_error}

-- s.endswith(suffix)
abbrev pub ends_with : Text → Text → Bool
ends_with suffix s =
    leb (length suffix) (length s) && text_eq (drop (length s - length suffix) s) suffix

-- host.lower() == rule or (rule.startswith(".") and host.lower().endswith(rule))
abbrev pub host_matches : Text → Text → Bool
host_matches host rule = text_eq host rule || (starts_with (codes ".") rule && ends_with rule host)

-- 169.254.169.254, or an address that is not to be reached from here.
abbrev pub is_blocked : Address → Bool
is_blocked a =
    (a.is_v4 && a.value == 2_852_039_166)
    || a.is_loopback
    || a.is_link_local
    || a.is_multicast
    || a.is_unspecified

module _ (env : Env) where
  -- A rule that is no network is the name of a host.
  abbrev pub rule_matches_host : Text → Text → Bool
  rule_matches_host host rule = elim (env.ip_network rule) [
    | none ↦ host_matches host (env.lower rule)
    | some _ ↦ false
  ]

  abbrev pub rule_matches_address : Address → Text → Bool
  rule_matches_address a rule = elim (env.ip_network rule) [
    | none ↦ false
    | some network ↦ env.is_in_network a network
  ]

  unfoldable pub host_match : Text → Bool
  host_match host = any (rule_matches_host (env.lower host)) env.settings.storage_endpoint_allowlist

  unfoldable pub network_match : Address → Bool
  network_match a = any (rule_matches_address a) env.settings.storage_endpoint_allowlist

  -- The three tests of one address.
  abbrev pub is_refused : Bool → Address → Bool
  is_refused host_matched a =
      is_blocked a
      || (a.is_private && not (network_match a))
      || (not host_matched && not (network_match a))

  abbrev pub resolve : ℕ → Text → Option ℕ → Option (List Address)
  resolve n host port = elim (env.ip_address host) [
    | some a ↦ some (a ∷ [])
    | none ↦ env.getaddrinfo n host (port_or port)
  ]
    where
      -- parsed.port or 443
      port_or : Option ℕ → ℕ
      port_or none = 443
      port_or (some p) = if p == 0 then 443 else p

  abbrev pub forbidden : Option Exn
  forbidden = some (provider_error storage_endpoint_forbidden false)

  abbrev pub address_error : Bool → Option (List Address) → Option Exn
  address_error host_matched none = some (provider_error storage_endpoint_unreachable false)
  address_error host_matched (some addresses) =
      if any (is_refused host_matched) addresses then forbidden else none

  abbrev pub is_https : Url → Bool
  is_https url = text_eq url.scheme (codes "https")

  abbrev pub is_http : Url → Bool
  is_http url = text_eq url.scheme (codes "http")

  abbrev pub host_error : ℕ → Url → Option Text → Option Exn
  host_error n url none = forbidden
  host_error n url (some []) = forbidden
  host_error n url (some (c ∷ host)) =
      if not (is_https url || is_http url)
        || (not (is_https url) && not env.settings.allow_insecure_storage_http)
      then forbidden
      else address_error (host_match (c ∷ host)) (resolve n (c ∷ host) url.port)

  -- The exception, if there is one.
  unfoldable pub endpoint_error : ℕ → Url → Option Exn
  unfolding host_match network_match
  endpoint_error n url = host_error n url url.hostname

  -- An address that may be called, for a host that the allowlist names or not.
  abbrev pub IsPermitted : Text → Address → Type 0
  IsPermitted host a =
      (is_blocked a ≡ false)
      × ((a.is_private ≡ false) ⊎ (network_match a ≡ true))
      × ((host_match host ≡ true) ⊎ (network_match a ≡ true))

  -- The scheme is refused.
  abbrev scheme_refused : Url → Bool
  scheme_refused url =
      not (is_https url || is_http url)
      || (not (is_https url) && not env.settings.allow_insecure_storage_http)
