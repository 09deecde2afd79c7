-- ===== src/Policy/Urls.antt =====
-- validateParsedURL, validateURL and validateProxyURL of internal/fetch/policy.go.
use tls_fetch_mcp.Common.{
  All, List, Option, Option-cases, [], ap, arith, false, inl, inr, refl, some, subst, true, ◌↔◌,
  ◌∙◌, ◌∷◌, ◌≡◌, ◌≢◌,
}
use tls_fetch_mcp.Text.{Bytes, eq_bytes_iff, eq_bytes→eq}
use tls_fetch_mcp.Text.Case.{Unicode}
use tls_fetch_mcp.Errors.{Error, ok, Result-cases, host_address, proxy_host_address}
use tls_fetch_mcp.Policy.Address.{Ip}
use tls_fetch_mcp.Policy.{
  Policy, Url, Resolver, host_allowed, resolve, validate_ip, validate_all, normal_host,
  is_web_scheme, is_proxy_scheme, validate_parsed_url, validate_url, validate_proxy_url,
}

-- The policy accepts the address.
abbrev pub Passes : Policy → Ip → Type 0
Passes p address = validate_ip p address ≡ ok tt

pub validate_all→All :
    (p : Policy) (f : Error → Error) (l : List Ip) → validate_all p f l ≡ ok tt → All (Passes p) l
unfolding validate_all
validate_all→All p f [] h = tt
validate_all→All p f (a ∷ l) h = ground (arith, validate_all→All p f l)

validate_all_complete :
    (p : Policy) (f : Error → Error) (l : List Ip) → All (Passes p) l → validate_all p f l ≡ ok tt
unfolding validate_all
validate_all_complete p f [] h = refl
validate_all_complete p f (a ∷ l) h = rw h.0 (validate_all_complete p f l h.1)

resolve-nonempty : (r : Resolver) (host : Bytes) (l : List Ip) → resolve r host ≡ ok l → l ≢ []
unfolding resolve
resolve-nonempty r host l h = ground arith

-- What a validated URL guarantees.
pub record IsSafe (u : Unicode) (p : Policy) (r : Resolver) (parsed : Url) : Type 0 where
  pub scheme : is_web_scheme parsed.scheme ≡ true
  pub no_user : parsed.has_user ≡ false
  pub named : normal_host u parsed ≢ []
  pub allowed : host_allowed p (normal_host u parsed) ≡ true
  pub addresses : List Ip
  pub resolved : resolve r (normal_host u parsed) ≡ ok addresses
  pub some_address : addresses ≢ []
  pub all_pass : All (Passes p) addresses

module _ (u : Unicode) (p : Policy) (r : Resolver) (parsed : Url) where
  abbrev host : Bytes
  host = normal_host u parsed

  validate_parsed_url_sound : validate_parsed_url u p r parsed ≡ ok tt → IsSafe u p r parsed
  unfolding validate_parsed_url
  validate_parsed_url_sound h = elim (Result-cases (resolve r host)) [
    | inl (l, e) ↦ record {
      scheme = ground arith;
      no_user = ground arith;
      named = λ e'. ground (arith, eq_bytes_iff host []);
      allowed = ground arith;
      addresses = l;
      resolved = e;
      some_address = resolve-nonempty r host l e;
      all_pass = validate_all→All p (host_address host) l (ground arith);
    }
    | inr (x, e) ↦ absurd (ground arith)
  ]

  validate_parsed_url_complete : IsSafe u p r parsed → validate_parsed_url u p r parsed ≡ ok tt
  unfolding validate_parsed_url
  validate_parsed_url_complete s =
      let passes : validate_all p (host_address host) s.addresses ≡ ok tt =
        validate_all_complete p (host_address host) s.addresses s.all_pass in
      ground (arith, eq_bytes→eq host [])

  -- A URL passes exactly when its scheme is http or https, it carries no credentials, it names a host
  -- that the allowlist admits, and that host resolves to at least one address and to none that the
  -- policy refuses.
  pub validate_parsed_url_iff : (validate_parsed_url u p r parsed ≡ ok tt) ↔ IsSafe u p r parsed
  validate_parsed_url_iff = (validate_parsed_url_sound, validate_parsed_url_complete)

module _ (u : Unicode) (p : Policy) (r : Resolver) (parse_url : Bytes → Option Url) where
  -- A URL that `validateURL` returns is the parse of the text and is safe: its scheme is http or https, it
  -- carries no credentials, and it names a host that the allowlist admits and whose addresses, at least
  -- one, all pass the policy.
  pub validate_url-IsSafe :
      (raw_url : Bytes) (parsed : Url)
      → validate_url u p r parse_url raw_url ≡ ok parsed
      → (parse_url raw_url ≡ some parsed) × IsSafe u p r parsed
  unfolding validate_url
  validate_url-IsSafe raw_url parsed h = elim (Option-cases (parse_url raw_url)) [
    | inl e ↦ absurd (ground arith)
    | inr (q, e) ↦ elim (Result-cases (validate_parsed_url u p r q)) [
      | inl (t, v) ↦
          let same : q ≡ parsed = ground arith in
          (e ∙ ap some same, subst (IsSafe u p r) same (validate_parsed_url_sound u p r q v))
      | inr (x, v) ↦ absurd (ground arith)
    ]
  ]

  -- A proxy URL that passes has a proxy scheme and a host name, whose addresses, at least one, all
  -- pass the policy; the allowlist of hosts is not asked.
  pub validate_proxy_url-safe :
      (raw_url : Bytes)
      → validate_proxy_url u p r parse_url raw_url ≡ ok tt
      → (parsed : Url) × (parse_url raw_url ≡ some parsed)
        × (is_proxy_scheme parsed.scheme ≡ true)
        × (normal_host u parsed ≢ [])
        × ((l : List Ip) × (resolve r (normal_host u parsed) ≡ ok l) × (l ≢ []) × All (Passes p) l)
  unfolding validate_proxy_url
  validate_proxy_url-safe raw_url h = elim (Option-cases (parse_url raw_url)) [
    | inl e ↦ absurd (ground arith)
    | inr (q, e) ↦ elim (Result-cases (resolve r (normal_host u q))) [
      | inl (l, v) ↦ (
        q,
        e,
        ground arith,
        (λ e'. ground (arith, eq_bytes_iff (normal_host u q) [])),
        (
          l,
          v,
          resolve-nonempty r (normal_host u q) l v,
          validate_all→All p (proxy_host_address (normal_host u q)) l (ground arith),
        ),
      )
      | inr (x, v) ↦ absurd (ground arith)
    ]
  ]
