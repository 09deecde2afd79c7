-- ===== src/Request/Limits.antt =====
-- timeout and responseLimit of internal/fetch/fetch.go.
use tls_fetch_mcp.Common.{arith, pos, ℤ, ◌<ℤ◌, ◌≡◌, ◌≤ℤ◌}
use tls_fetch_mcp.Errors.{ok, err, bad_timeout}
use tls_fetch_mcp.Config.{Config, with_defaults}
use tls_fetch_mcp.Fetcher.{new_fetcher}
use tls_fetch_mcp.Config.Bounds.{IsValid}
use tls_fetch_mcp.Request.{timeout, response_limit}

-- At least one and at most the given number.
abbrev pub IsWithin : ℤ → ℤ → Type 0
IsWithin most n = (pos 0 <ℤ n) × (n ≤ℤ most)

pub response_limit-IsWithin :
    (config : Config) (asked n : ℤ)
    → pos 0 <ℤ config.max_response_bytes
    → response_limit config asked ≡ ok n
    → IsWithin config.max_response_bytes n
unfolding response_limit
response_limit-IsWithin config asked n v e = (ground arith, ground arith)

-- Under a configuration with positive limits that fit an `int64` and a default timeout within the
-- maximum, a request that is not refused for its limits has a
-- timeout and a bound on the response that are positive and within the server's maxima.
pub limits-IsWithin :
    (config : Config) (asked_timeout asked_bytes t n : ℤ)
    → IsValid config
    → timeout config asked_timeout ≡ ok t
    → response_limit config asked_bytes ≡ ok n
    → IsWithin config.max_timeout t × IsWithin config.max_response_bytes n
unfolding timeout response_limit
limits-IsWithin config asked_timeout asked_bytes t n v a b = (
  (ground (arith, v.positive), ground (arith, v.default_fits)),
  (ground (arith, v.positive), ground arith),
)

-- A fetcher built from a configuration that names no default timeout, but a maximum above zero and below 30
-- seconds: a request that asks for no timeout gets 30 seconds, which the fetcher refuses, as above its
-- maximum, to a request that asks for them.
pub timeout_exceeds :
    (Jar : Type 0) (cfg : Config)
    → cfg.default_timeout_seconds ≡ pos 0
    → pos 0 <ℤ cfg.max_timeout
    → cfg.max_timeout <ℤ pos 30
    → (timeout (new_fetcher {Jar = Jar} cfg).config (pos 0) ≡ ok (pos 30))
      × (timeout (new_fetcher {Jar = Jar} cfg).config (pos 30) ≡ err (bad_timeout cfg.max_timeout))
unfolding timeout with_defaults new_fetcher
timeout_exceeds Jar cfg a b c = (ground arith, ground arith)
