-- ===== src/Config.antt =====
-- internal/fetch/config.go: the server's limits, their defaults, and their reading from the
-- environment. `os.Getenv` is the argument `getenv`, which gives the empty text for an unset name.
use tls_fetch_mcp.Common.{Bool, List, if◌then◌else◌, leb_ℤ, pos, ℤ, ◌*◌}
pub mod Env
pub mod Bounds
pub mod Hosts
pub mod Tests
use tls_fetch_mcp.Text.{Bytes}

abbrev pub default_response_limit : ℤ
default_response_limit = pos (512 * 1024)

abbrev pub default_timeout : ℤ
default_timeout = pos 30

abbrev pub default_max_timeout : ℤ
default_max_timeout = pos 120

abbrev pub default_max_sessions : ℤ
default_max_sessions = pos 64

abbrev pub default_session_ttl : ℤ
default_session_ttl = pos (30 * 60)

abbrev pub default_max_responses : ℤ
default_max_responses = pos 32

abbrev pub default_response_ttl : ℤ
default_response_ttl = pos (5 * 60)

abbrev pub default_response_read_limit : ℤ
default_response_read_limit = pos (128 * 1024)

-- `Config`. Each number is an `int` or `int64`.
pub record Config : Type 0 where
  pub allow_private : Bool
  pub allow_proxy : Bool
  pub allowed_hosts : List Bytes
  pub max_response_bytes : ℤ
  pub default_timeout_seconds : ℤ
  pub max_timeout : ℤ
  pub max_sessions : ℤ
  pub session_ttl : ℤ
  pub max_responses : ℤ
  pub response_ttl : ℤ
  pub max_read_bytes : ℤ

-- The value, or the default if the value is not positive.
abbrev or_default : ℤ → ℤ → ℤ
or_default value default = if leb_ℤ value (pos 0) then default else value

unfoldable pub with_defaults : Config → Config
with_defaults cfg = record cfg {
  max_response_bytes = or_default cfg.max_response_bytes default_response_limit;
  default_timeout_seconds = or_default cfg.default_timeout_seconds default_timeout;
  max_timeout = or_default cfg.max_timeout default_max_timeout;
  max_sessions = or_default cfg.max_sessions default_max_sessions;
  session_ttl = or_default cfg.session_ttl default_session_ttl;
  max_responses = or_default cfg.max_responses default_max_responses;
  response_ttl = or_default cfg.response_ttl default_response_ttl;
  max_read_bytes = or_default cfg.max_read_bytes default_response_read_limit;
}
