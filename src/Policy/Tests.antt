-- ===== src/Policy/Tests.antt =====
-- The policy at concrete hosts and addresses: a test of each branch, and the theorems applied.
use tls_fetch_mcp.Common.{
  Option, [], arith, drop, false, inr, none, refl, some, true, ℕ, ◌↔◌, ◌∷◌, ◌≡◌, ◌⊎◌,
}
use tls_fetch_mcp.Text.{Bytes, ascii}
use tls_fetch_mcp.Text.Case.{ascii_only}
use tls_fetch_mcp.Errors.{
  Result, ok, err, nil_error, private_blocked, always_blocked, not_global, refusing_connection,
}
use tls_fetch_mcp.Policy.{
  Policy, Url, Resolver, host_allowed, resolve, validate_ip, validate_all, normal_host,
  validate_parsed_url, validate_url, validate_proxy_url,
}
use tls_fetch_mcp.Policy.Address.{
  Ip, zeros15, to4, is_unspecified, is_multicast, is_private, is_loopback, is_link_local_unicast,
  is_global_unicast,
}
use tls_fetch_mcp.Policy.Hosts.{host_allowed_iff, SomeAllows}
use tls_fetch_mcp.Policy.Number.{number}
use tls_fetch_mcp.Policy.Verdict.{validate_ip-verdict, verdict}
use tls_fetch_mcp.Policy.Urls.{validate_parsed_url_iff, validate_url-IsSafe, IsSafe}
use tls_fetch_mcp.Policy.Dial.{dial_context, Dialled, dial_context-Dialled}

program : Unit {0}
unfolding is_unspecified is_multicast is_private is_loopback is_link_local_unicast is_global_unicast
    to4 host_allowed resolve validate_ip validate_all normal_host validate_parsed_url validate_url
    validate_proxy_url dial_context
program = tt

abbrev strict : Policy
strict = record { allow_private = false; allowed_hosts = ascii "*.example.com" ∷ [] }

abbrev public_ip : Ip
public_ip = 93 ∷ 184 ∷ 216 ∷ 34 ∷ []

abbrev loopback_ip : Ip
loopback_ip = 127 ∷ 0 ∷ 0 ∷ 1 ∷ []

abbrev metadata_ip : Ip
metadata_ip = 169 ∷ 254 ∷ 169 ∷ 254 ∷ []

abbrev dns : Resolver
dns = record { parse_ip = λ host. none; lookup_ip = λ host. some (public_ip ∷ []) }

-- The name resolves to a public address and to a loopback address.
abbrev rebound : Resolver
rebound = record {
  parse_ip = λ host. none;
  lookup_ip = λ host. some (public_ip ∷ loopback_ip ∷ []);
}

abbrev shop : Url
shop = record {
  scheme = ascii "https";
  has_user = false;
  hostname = ascii "Shop.Example.com.";
  text = ascii "https://Shop.Example.com./";
}

abbrev proxy : Url
proxy = record {
  scheme = ascii "socks5";
  has_user = true;
  hostname = ascii "proxy.test";
  text = ascii "socks5://proxy.test";
}

-- The first address refuses the connection.
abbrev connect : Ip → Bytes → Result ℕ
connect ip port = err nil_error

abbrev split_address : Bytes → Option (Bytes × Bytes)
split_address address = some (address, ascii "443")

verdicts :
    (validate_ip strict public_ip ≡ ok tt)
    × (validate_ip strict loopback_ip ≡ err private_blocked)
    × (validate_ip strict metadata_ip ≡ err private_blocked)
    × (validate_ip strict (0 ∷ 0 ∷ 0 ∷ 0 ∷ []) ≡ err always_blocked)
    × (validate_ip strict (255 ∷ 255 ∷ 255 ∷ 255 ∷ []) ≡ err not_global)
    × (validate_ip (record strict { allow_private = true }) loopback_ip ≡ ok tt)
unfolding program
verdicts = (refl, refl, refl, refl, refl, refl)

hosts :
    (host_allowed strict (ascii "shop.example.com") ≡ true)
    × (host_allowed strict (ascii "example.com") ≡ false)
    × (host_allowed strict (ascii "badexample.com") ≡ false)
unfolding program
hosts = (refl, refl, refl)

shop_passes : validate_parsed_url ascii_only strict dns shop ≡ ok tt
unfolding program
shop_passes = refl

shop_valid : validate_url ascii_only strict dns (λ s. some shop) shop.text ≡ ok shop
unfolding program
shop_valid = refl

proxy_valid : validate_proxy_url ascii_only strict dns (λ s. some proxy) proxy.text ≡ ok tt
unfolding program
proxy_valid = refl

-- The loopback address is refused once the public one has failed.
rebound_run :
    dial_context strict connect rebound split_address (ascii "shop.example.com")
    ≡ (public_ip ∷ [], err (refusing_connection loopback_ip private_blocked))
unfolding program
rebound_run = refl

dial_context-Dialled_example :
    Dialled strict connect
      (dial_context strict connect rebound split_address (ascii "shop.example.com"))
dial_context-Dialled_example =
    dial_context-Dialled strict connect rebound split_address (ascii "shop.example.com")

validate_url-IsSafe_example :
    ((λ (s : Bytes). some shop) shop.text ≡ some shop) × IsSafe ascii_only strict dns shop
validate_url-IsSafe_example =
    validate_url-IsSafe ascii_only strict dns (λ s. some shop) shop.text shop shop_valid

validate_parsed_url_iff_example :
    (validate_parsed_url ascii_only strict dns shop ≡ ok tt) ↔ IsSafe ascii_only strict dns shop
validate_parsed_url_iff_example = validate_parsed_url_iff ascii_only strict dns shop

host_allowed_iff_example :
    (host_allowed strict (ascii "shop.example.com") ≡ true)
    ↔ ((strict.allowed_hosts ≡ []) ⊎ SomeAllows strict.allowed_hosts (ascii "shop.example.com"))
host_allowed_iff_example = host_allowed_iff strict (ascii "shop.example.com")

-- ::ffff:169.254.169.254.
abbrev mapped_metadata : Ip
mapped_metadata = 0 ∷ 0 ∷ 0 ∷ 0 ∷ 0 ∷ 0 ∷ 0 ∷ 0 ∷ 0 ∷ 0 ∷ 255 ∷ 255 ∷ 169 ∷ 254 ∷ 169 ∷ 254 ∷ []

validate_ip-verdict_example : validate_ip strict mapped_metadata ≡ verdict strict mapped_metadata
validate_ip-verdict_example = validate_ip-verdict strict mapped_metadata (inr refl) (ground arith)

verdicts6 :
    (verdict strict mapped_metadata ≡ err private_blocked)
    × (verdict strict (0xFD ∷ zeros15) ≡ err private_blocked)
    × (verdict strict (0xFF ∷ zeros15) ≡ err always_blocked)
    × (verdict strict (0x20 ∷ 1 ∷ 0xD ∷ 0xB8 ∷ drop 3 zeros15) ≡ ok tt)
unfolding number
verdicts6 = (refl, refl, refl, refl)
