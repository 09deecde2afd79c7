-- ===== src/Config/Env.antt =====
-- Reading the configuration from environment variables: `envBoolean`, `envPositiveInt`,
-- `envPositiveInt64`, `splitCSV` and `ConfigFromEnv`.
use tls_fetch_mcp.Common.{
  Bool, List, Option, [], false, if◌then◌else◌, leb_ℤ, ltb_ℤ, none, pos, some, true, ℤ, ◌∷◌,
}
use tls_fetch_mcp.Text.{one_of, Bytes, ascii, eq_bytes}
use tls_fetch_mcp.Text.Case.{Unicode, to_lower}
use tls_fetch_mcp.Text.Space.{trim_space}
use tls_fetch_mcp.Text.Number.{parse_int}
use tls_fetch_mcp.Text.Split.{split}
use tls_fetch_mcp.Errors.{
  ◌>>=◌, ◌>>◌, Result, ok, err, fail_if, must_be_boolean, must_be_positive,
  default_timeout_exceeds_max,
}
use tls_fetch_mcp.Config.{
  Config, default_response_limit, default_timeout, default_max_timeout, default_max_sessions,
  default_session_ttl, default_max_responses, default_response_ttl, default_response_read_limit,
}

-- `strconv.ParseBool`.
unfoldable pub parse_bool : Bytes → Option Bool
unfolding eq_bytes
parse_bool s =
    if one_of s
      (ascii "1" ∷ ascii "t" ∷ ascii "T" ∷ ascii "true" ∷ ascii "TRUE" ∷ ascii "True" ∷ [])
    then some true
    else if one_of s
        (ascii "0" ∷ ascii "f" ∷ ascii "F" ∷ ascii "false" ∷ ascii "FALSE" ∷ ascii "False" ∷ [])
    then some false
    else none

abbrev boolean_value : Bytes → Option Bool → Result Bool
boolean_value name none = err (must_be_boolean name)
boolean_value name (some b) = ok b

abbrev positive_value : Bytes → Option ℤ → Result ℤ
positive_value name none = err (must_be_positive name)
positive_value name (some n) = if leb_ℤ n (pos 0) then err (must_be_positive name) else ok n

abbrev pub keep_item : Bytes → List Bytes → List Bytes
keep_item [] items = items
keep_item (c ∷ item) items = (c ∷ item) ∷ items

-- The loop of `splitCSV` over the pieces.
unfoldable pub csv_items : Unicode → List Bytes → List Bytes
unfolding to_lower trim_space
csv_items u [] = []
csv_items u (item ∷ items) = keep_item (to_lower u (trim_space item)) (csv_items u items)

unfoldable pub split_csv : Unicode → Bytes → List Bytes
unfolding csv_items split
split_csv u value = csv_items u (split b',' value)

module _ (u : Unicode) (getenv : Bytes → Bytes) where
  unfoldable pub env_boolean : Bytes → Result Bool
  unfolding trim_space parse_bool
  env_boolean name =
      let raw = trim_space (getenv name) in
      elim raw [ [] ↦ ok false | c ∷ s ↦ boolean_value name (parse_bool (c ∷ s)) ]

  -- `envPositiveInt` and `envPositiveInt64`: an `int` has 64 bits.
  unfoldable pub env_positive_int : Bytes → ℤ → Result ℤ
  unfolding trim_space parse_int
  env_positive_int name fallback =
      let raw = trim_space (getenv name) in
      elim raw [ [] ↦ ok fallback | c ∷ s ↦ positive_value name (parse_int (c ∷ s)) ]

  unfoldable pub config_from_env : Result Config
  config_from_env = do
    let allowed_hosts = split_csv u (getenv (ascii "MCP_TLS_FETCH_ALLOWED_HOSTS"))
    allow_private ← env_boolean (ascii "MCP_TLS_FETCH_ALLOW_PRIVATE")
    allow_proxy ← env_boolean (ascii "MCP_TLS_FETCH_ALLOW_PROXY")
    max_response_bytes ←
        env_positive_int (ascii "MCP_TLS_FETCH_MAX_RESPONSE_BYTES") default_response_limit
    timeout ← env_positive_int (ascii "MCP_TLS_FETCH_DEFAULT_TIMEOUT_SECONDS") default_timeout
    max_timeout ← env_positive_int (ascii "MCP_TLS_FETCH_MAX_TIMEOUT_SECONDS") default_max_timeout
    max_sessions ← env_positive_int (ascii "MCP_TLS_FETCH_MAX_SESSIONS") default_max_sessions
    session_ttl ← env_positive_int (ascii "MCP_TLS_FETCH_SESSION_TTL_SECONDS") default_session_ttl
    max_responses ←
        env_positive_int (ascii "MCP_TLS_FETCH_MAX_STORED_RESPONSES") default_max_responses
    response_ttl ←
        env_positive_int (ascii "MCP_TLS_FETCH_RESPONSE_TTL_SECONDS") default_response_ttl
    max_read_bytes ←
        env_positive_int (ascii "MCP_TLS_FETCH_MAX_RESPONSE_READ_BYTES") default_response_read_limit
    fail_if (ltb_ℤ max_timeout timeout) default_timeout_exceeds_max
    ok (record {
      allow_private = allow_private;
      allow_proxy = allow_proxy;
      allowed_hosts = allowed_hosts;
      max_response_bytes = max_response_bytes;
      default_timeout_seconds = timeout;
      max_timeout = max_timeout;
      max_sessions = max_sessions;
      session_ttl = session_ttl;
      max_responses = max_responses;
      response_ttl = response_ttl;
      max_read_bytes = max_read_bytes;
    })
