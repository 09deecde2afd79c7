-- ===== src/Request/Tests.antt =====
-- Limits and bodies at concrete numbers.
use tls_fetch_mcp.Common.{
  [], arith, false, if◌then◌else◌, leb, length, ltb, pos, refl, take, true, ℕ, ◌&&◌, ◌≡◌,
}
use tls_fetch_mcp.Text.{ascii}
use tls_fetch_mcp.Errors.{ok, err, bad_timeout, read_failed}
use tls_fetch_mcp.Config.{Config}
use tls_fetch_mcp.Config.Bounds.{IsValid}
use tls_fetch_mcp.Response.Read.{slice_bytes}
use tls_fetch_mcp.Request.{timeout, response_limit, Stream, read_limited, read_body}
use tls_fetch_mcp.Request.Limits.{IsWithin, limits-IsWithin, timeout_exceeds}
use tls_fetch_mcp.Fetcher.{new_fetcher}
use tls_fetch_mcp.Request.Body.{read_body-take}

program : Unit {0}
unfolding slice_bytes timeout response_limit read_limited read_body
program = tt

abbrev config : Config
config = record {
  allow_private = false;
  allow_proxy = false;
  allowed_hosts = [];
  max_response_bytes = pos 4;
  default_timeout_seconds = pos 30;
  max_timeout = pos 120;
  max_sessions = pos 2;
  session_ttl = pos 60;
  max_responses = pos 2;
  response_ttl = pos 60;
  max_read_bytes = pos 1024;
}

config-IsValid : IsValid config
config-IsValid = record {
  positive = record {
    response_bytes = (omega arith, (omega arith, omega arith));
    default_timeout = (omega arith, (omega arith, omega arith));
    timeout = (omega arith, (omega arith, omega arith));
    sessions = (omega arith, (omega arith, omega arith));
    session_ttl = (omega arith, (omega arith, omega arith));
    responses = (omega arith, (omega arith, omega arith));
    response_ttl = (omega arith, (omega arith, omega arith));
    read_bytes = (omega arith, (omega arith, omega arith));
  };
  default_fits = omega arith;
}

abbrev hello : Stream
hello = record { bytes = ascii "hello"; broken = true }

runs :
    (timeout config (pos 0) ≡ ok (pos 30))
    × (timeout config (pos 121) ≡ err (bad_timeout (pos 120)))
    × (read_body (pos 4) hello ≡ ok (ascii "hell", true))
    × (read_body (pos 5) hello ≡ err read_failed)
    × (read_body (pos 5) (record hello { broken = false }) ≡ ok (ascii "hello", false))
    × (read_body (pos 9223372036854775807) hello ≡ ok ([], false))
unfolding program
runs = (refl, refl, refl, refl, refl, refl)

limits-IsWithin_example :
    IsWithin config.max_timeout (pos 90) × IsWithin config.max_response_bytes (pos 4)
unfolding program
limits-IsWithin_example =
    limits-IsWithin config (pos 90) (pos 0) (pos 90) (pos 4) config-IsValid refl refl

read_body-take_example : read_body (pos 4) hello ≡ (
    if leb (length hello.bytes) 4 && hello.broken
    then err read_failed
    else ok (take 4 hello.bytes, ltb 4 (length hello.bytes)))
read_body-take_example = read_body-take 4 hello (omega arith) (omega arith)

-- A maximum that is smaller than the default.
abbrev short : Config
short = record config { default_timeout_seconds = pos 0; max_timeout = pos 10 }

timeout_exceeds_example :
    (timeout (new_fetcher {Jar = ℕ} short).config (pos 0) ≡ ok (pos 30))
    × (timeout (new_fetcher {Jar = ℕ} short).config (pos 30) ≡ err (bad_timeout (pos 10)))
timeout_exceeds_example = timeout_exceeds ℕ short refl (omega arith) (omega arith)
