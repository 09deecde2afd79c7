-- ===== src/Config/Bounds.antt =====
-- The bounds of a configuration, read from the environment or completed by withDefaults.
use tls_fetch_mcp.Common.{IsInt64, arith, pos, ℤ, ◌<ℤ◌, ◌≡◌, ◌≤ℤ◌}
use tls_fetch_mcp.Text.{Bytes}
use tls_fetch_mcp.Text.Case.{Unicode}
use tls_fetch_mcp.Text.Number.{parse_int}
use tls_fetch_mcp.Errors.{ok, Ensures, Ensures-bind, Ensures-any, Ensures-ok}
use tls_fetch_mcp.Config.{Config, with_defaults}
use tls_fetch_mcp.Config.Env.{env_positive_int, config_from_env}

-- A positive `int64`.
abbrev pub IsLimit : ℤ → Type 0
IsLimit n = (pos 0 <ℤ n) × IsInt64 n

pub record IsPositive (cfg : Config) : Type 0 where
  pub response_bytes : IsLimit cfg.max_response_bytes
  pub default_timeout : IsLimit cfg.default_timeout_seconds
  pub timeout : IsLimit cfg.max_timeout
  pub sessions : IsLimit cfg.max_sessions
  pub session_ttl : IsLimit cfg.session_ttl
  pub responses : IsLimit cfg.max_responses
  pub response_ttl : IsLimit cfg.response_ttl
  pub read_bytes : IsLimit cfg.max_read_bytes

-- Whatever the variable holds, a value that is read is a limit.
pub env_positive_int-IsLimit :
    (u : Unicode) (getenv : Bytes → Bytes) (name : Bytes) (fallback : ℤ)
    → IsLimit fallback
    → Ensures IsLimit (env_positive_int u getenv name fallback)
unfolding env_positive_int parse_int
env_positive_int-IsLimit u getenv name fallback h = ground arith

-- What main.go hands to the fetcher.
pub record IsValid (cfg : Config) : Type 0 where
  pub positive : IsPositive cfg
  pub default_fits : cfg.default_timeout_seconds ≤ℤ cfg.max_timeout

-- A positive configuration is left as it is.
with_defaults_self : (cfg : Config) → IsPositive cfg → with_defaults cfg ≡ cfg
unfolding with_defaults
with_defaults_self cfg h = ground arith

module _ (u : Unicode) (getenv : Bytes → Bytes) where
  config_from_env-Ensures : Ensures IsValid (config_from_env u getenv)
  unfolding config_from_env
  config_from_env-Ensures =
      search (Ensures-bind, Ensures-any, env_positive_int-IsLimit, arith) depth 14

  -- A configuration that `ConfigFromEnv` returns, whatever the environment holds, has positive limits
  -- that fit an `int64` and a default timeout within the maximum, and `New` uses it unchanged.
  pub config_from_env-IsValid :
      (cfg : Config) → config_from_env u getenv ≡ ok cfg → IsValid cfg × (with_defaults cfg ≡ cfg)
  config_from_env-IsValid cfg e =
      let v : IsValid cfg = Ensures-ok IsValid config_from_env-Ensures e in
      (v, with_defaults_self cfg v.positive)

-- The fields of a `Config` are `int` and `int64` values.
pub record IsInt64Config (cfg : Config) : Type 0 where
  pub response_bytes : IsInt64 cfg.max_response_bytes
  pub default_timeout : IsInt64 cfg.default_timeout_seconds
  pub timeout : IsInt64 cfg.max_timeout
  pub sessions : IsInt64 cfg.max_sessions
  pub session_ttl : IsInt64 cfg.session_ttl
  pub responses : IsInt64 cfg.max_responses
  pub response_ttl : IsInt64 cfg.response_ttl
  pub read_bytes : IsInt64 cfg.max_read_bytes

-- Whatever configuration of `int64` values `New` is given, the one that the fetcher keeps has positive limits, and
-- filling in the defaults again changes nothing.
pub with_defaults-IsPositive :
    (cfg : Config)
    → IsInt64Config cfg
    → IsPositive (with_defaults cfg) × (with_defaults (with_defaults cfg) ≡ with_defaults cfg)
with_defaults-IsPositive cfg h =
    let p : IsPositive (with_defaults cfg) = positive cfg h in
    (p, with_defaults_self (with_defaults cfg) p)
  where
    positive : (cfg : Config) → IsInt64Config cfg → IsPositive (with_defaults cfg)
    positive cfg h = unfold with_defaults in ground arith
