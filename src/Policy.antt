-- ===== src/Policy.antt =====
-- internal/fetch/policy.go: which URLs, proxies and addresses the server may contact. `url.Parse`,
-- `net.ParseIP`, the DNS resolver, `net.SplitHostPort` and the dialer are parameters.
use tls_fetch_mcp.Common.{
  Bool, List, Option, [], drop, false, if◌then◌else◌, length, none, not, some, take, true, ◌&&◌,
  ◌++◌, ◌-◌, ◌||◌, ◌∷◌,
}
pub mod Address
pub mod Hosts
pub mod Number
pub mod Ranges
pub mod Mapped
pub mod Verdict
pub mod Urls
pub mod Dial
pub mod Tests
use tls_fetch_mcp.Text.{Bytes, ascii, eq_bytes, has_prefix, has_suffix}
use tls_fetch_mcp.Text.Case.{Unicode, to_lower}
use tls_fetch_mcp.Errors.{
  Error, Result, ok, err, ◌>>=◌, ◌>>◌, fail_if, wrap, or_fail, invalid_url, bad_scheme,
  url_credentials, missing_hostname, invalid_proxy_url, bad_proxy_scheme, missing_proxy_hostname,
  host_not_allowed, resolve_failed, no_addresses, always_blocked, private_blocked, not_global,
  host_address, proxy_host_address,
}
use tls_fetch_mcp.Config.{Config}
use Address.{
  Ip, is_unspecified, is_multicast, is_private, is_loopback, is_link_local_unicast,
  is_global_unicast,
}

-- The fields of `policy` but the resolver, which is an argument of each call: what it answers may
-- differ from call to call.
pub record Policy : Type 0 where
  pub allow_private : Bool
  pub allowed_hosts : List Bytes

unfoldable pub new_policy : Config → Policy
new_policy cfg = record { allow_private = cfg.allow_private; allowed_hosts = cfg.allowed_hosts }

-- What the program reads of a `*url.URL`: `Scheme`, whether `User` is set, `Hostname()` and
-- `String()`.
pub record Url : Type 0 where
  pub scheme : Bytes
  pub has_user : Bool
  pub hostname : Bytes
  pub text : Bytes

-- Name resolution: `net.ParseIP`, and the answer of `LookupIP` at the time of the call; `none` is its
-- error.
pub record Resolver : Type 0 where
  pub parse_ip : Bytes → Option Ip
  pub lookup_ip : Bytes → Option (List Ip)

-- The loop of `hostAllowed`.
unfoldable pub matches_any : Bytes → List Bytes → Bool
unfolding eq_bytes has_prefix has_suffix
matches_any host [] = false
matches_any host (allowed ∷ rest) =
    if eq_bytes host allowed
    then true
    else if has_prefix allowed (ascii "*.")
        && not (eq_bytes (drop 2 allowed) [])
        && has_suffix host (ascii "." ++ drop 2 allowed)
    then true
    else matches_any host rest

-- An empty list allows every host.
unfoldable pub allowed_by : List Bytes → Bytes → Bool
unfolding matches_any
allowed_by [] host = true
allowed_by (allowed ∷ rest) host = matches_any host (allowed ∷ rest)

unfoldable pub host_allowed : Policy → Bytes → Bool
unfolding allowed_by
host_allowed p host = allowed_by p.allowed_hosts host

unfoldable pub resolve : Resolver → Bytes → Result (List Ip)
resolve r host = elim (r.parse_ip host) [
  | some address ↦ ok (address ∷ [])
  | none ↦ or_fail (r.lookup_ip host) (resolve_failed host) >>= λ addresses. elim addresses [
    | [] ↦ err (no_addresses host)
    | a ∷ rest ↦ ok (a ∷ rest)
  ]
]

unfoldable pub validate_ip : Policy → Ip → Result (Unit {0})
validate_ip p address =
    if is_unspecified address || is_multicast address
    then err always_blocked
    else if is_private address || is_loopback address || is_link_local_unicast address
    then (if p.allow_private then ok tt else err private_blocked)
    else if not (is_global_unicast address)
    then err not_global
    else ok tt

-- The loop over the addresses of a host.
unfoldable pub validate_all : Policy → (Error → Error) → List Ip → Result (Unit {0})
validate_all p f [] = ok tt
validate_all p f (address ∷ rest) = do wrap f (validate_ip p address); validate_all p f rest

-- `strings.TrimSuffix(s, ".")`.
unfoldable pub trim_dot : Bytes → Bytes
unfolding has_suffix
trim_dot s = if has_suffix s (ascii ".") then take (length s - 1) s else s

-- `strings.ToLower(strings.TrimSuffix(parsed.Hostname(), "."))`.
unfoldable pub normal_host : Unicode → Url → Bytes
unfolding to_lower trim_dot
normal_host u parsed = to_lower u (trim_dot parsed.hostname)

abbrev pub is_web_scheme : Bytes → Bool
is_web_scheme scheme = eq_bytes scheme (ascii "http") || eq_bytes scheme (ascii "https")

abbrev pub is_proxy_scheme : Bytes → Bool
is_proxy_scheme scheme =
    is_web_scheme scheme || eq_bytes scheme (ascii "socks5") || eq_bytes scheme (ascii "socks5h")

module _ (u : Unicode) (p : Policy) (r : Resolver) where
  unfoldable pub validate_parsed_url : Url → Result (Unit {0})
  validate_parsed_url parsed = do
    fail_if (not (is_web_scheme parsed.scheme)) bad_scheme
    fail_if parsed.has_user url_credentials
    let host = normal_host u parsed
    fail_if (eq_bytes host []) missing_hostname
    fail_if (not (host_allowed p host)) (host_not_allowed host)
    addresses ← resolve r host
    validate_all p (host_address host) addresses

  -- `parse_url` is `url.Parse`; `none` is its error.
  unfoldable pub validate_url : (Bytes → Option Url) → Bytes → Result Url
  validate_url parse_url raw_url = do
    parsed ← or_fail (parse_url raw_url) invalid_url
    validate_parsed_url parsed
    ok parsed

  unfoldable pub validate_proxy_url : (Bytes → Option Url) → Bytes → Result (Unit {0})
  validate_proxy_url parse_url raw_url = do
    parsed ← or_fail (parse_url raw_url) invalid_proxy_url
    fail_if (not (is_proxy_scheme parsed.scheme)) bad_proxy_scheme
    let host = normal_host u parsed
    fail_if (eq_bytes host []) missing_proxy_hostname
    addresses ← resolve r host
    validate_all p (proxy_host_address host) addresses
