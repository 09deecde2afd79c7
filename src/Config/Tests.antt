-- ===== src/Config/Tests.antt =====
-- A configuration read from an environment, and the theorems applied.
use tls_fetch_mcp.Common.{All, List, [], arith, false, if◌then◌else◌, pos, refl, ◌∷◌, ◌≡◌}
use tls_fetch_mcp.Text.{Bytes, ascii, eq_bytes}
use tls_fetch_mcp.Text.Case.{ascii_only}
use tls_fetch_mcp.Config.Hosts.{Item, IsItem, names_of, config_from_env-hosts}
use tls_fetch_mcp.Text.Space.{is_space_byte}
use tls_fetch_mcp.Errors.{ok, err, must_be_positive, default_timeout_exceeds_max}
use tls_fetch_mcp.Config.{Config, with_defaults}
use tls_fetch_mcp.Config.Env.{env_boolean, env_positive_int, config_from_env, split_csv}
use tls_fetch_mcp.Config.Bounds.{IsValid, config_from_env-IsValid}

program : Unit {0}
unfolding env_boolean env_positive_int config_from_env with_defaults split_csv eq_bytes
program = tt

-- An environment that sets one name.
abbrev only : Bytes → Bytes → Bytes → Bytes
only name value other = if eq_bytes other name then value else []

abbrev pub max_timeout_60 : Bytes → Bytes
max_timeout_60 = only (ascii "MCP_TLS_FETCH_MAX_TIMEOUT_SECONDS") (ascii " 60 ")

abbrev pub read_60 : Config
read_60 = record {
  allow_private = false;
  allow_proxy = false;
  allowed_hosts = [];
  max_response_bytes = pos 524288;
  default_timeout_seconds = pos 30;
  max_timeout = pos 60;
  max_sessions = pos 64;
  session_ttl = pos 1800;
  max_responses = pos 32;
  response_ttl = pos 300;
  max_read_bytes = pos 131072;
}

pub reads_60 : config_from_env ascii_only max_timeout_60 ≡ ok read_60
unfolding program
reads_60 = refl

refuses :
    (config_from_env ascii_only (only (ascii "MCP_TLS_FETCH_MAX_TIMEOUT_SECONDS") (ascii "20"))
      ≡ err default_timeout_exceeds_max)
    × (config_from_env ascii_only (only (ascii "MCP_TLS_FETCH_MAX_SESSIONS") (ascii "0"))
        ≡ err (must_be_positive (ascii "MCP_TLS_FETCH_MAX_SESSIONS")))
unfolding program
refuses = (refl, refl)

splits : split_csv ascii_only (ascii " A.com,, *.b.org ") ≡ ascii "a.com" ∷ ascii "*.b.org" ∷ []
unfolding program
splits = refl

config_from_env-IsValid_example : IsValid read_60 × (with_defaults read_60 ≡ read_60)
config_from_env-IsValid_example = config_from_env-IsValid ascii_only max_timeout_60 read_60 reads_60

-- Spaces around a name, an empty name, and capital letters.
abbrev first_item : Item
first_item = record { left = ascii " "; host = ascii "A.com"; right = [] }

abbrev other_items : List Item
other_items =
    record { left = []; host = []; right = ascii " " }
    ∷ record { left = []; host = ascii "*.b.org"; right = [] }
    ∷ []

abbrev two_hosts : Bytes → Bytes
two_hosts = only (ascii "MCP_TLS_FETCH_ALLOWED_HOSTS") (ascii " A.com, ,*.b.org")

abbrev restricted : Config
restricted = record read_60 {
  allowed_hosts = ascii "a.com" ∷ ascii "*.b.org" ∷ [];
  max_timeout = pos 120;
}

reads_hosts : config_from_env ascii_only two_hosts ≡ ok restricted
unfolding program
reads_hosts = refl

listed : All IsItem (first_item ∷ other_items)
unfolding is_space_byte
listed = ground arith

config_from_env-hosts_example : restricted.allowed_hosts ≡ names_of (first_item ∷ other_items)
unfolding eq_bytes
config_from_env-hosts_example =
    config_from_env-hosts ascii_only two_hosts restricted first_item other_items listed refl
      reads_hosts
