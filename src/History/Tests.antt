-- ===== src/History/Tests.antt =====
-- A short history: a session is used, a response fails to be stored and to be found, the session is cleared.
use tls_fetch_mcp.Common.{List, [], arith, false, none, pos, some, ℕ, ◌∷◌, ◌≡◌}
use tls_fetch_mcp.Text.{ascii}
use tls_fetch_mcp.Clock.{Time}
use tls_fetch_mcp.Config.{Config, with_defaults}
use tls_fetch_mcp.Config.Bounds.{IsInt64Config}
use tls_fetch_mcp.Fetcher.{Fetcher, new_fetcher}
use tls_fetch_mcp.History.{Call, use_session, touch, clear, store, extract, run}
use tls_fetch_mcp.Extract.Tests.{parsers}
use tls_fetch_mcp.History.Frame.{IsSound}
use tls_fetch_mcp.History.Runs.{run-IsSound}

-- Two sessions, and the defaults for the rest.
abbrev config : Config
config = record {
  allow_private = false;
  allow_proxy = false;
  allowed_hosts = [];
  max_response_bytes = pos 0;
  default_timeout_seconds = pos 0;
  max_timeout = pos 0;
  max_sessions = pos 2;
  session_ttl = pos 0;
  max_responses = pos 0;
  response_ttl = pos 0;
  max_read_bytes = pos 0;
}

config-IsInt64 : IsInt64Config config
config-IsInt64 = record {
  response_bytes = (omega arith, omega arith);
  default_timeout = (omega arith, omega arith);
  timeout = (omega arith, omega arith);
  sessions = (omega arith, omega arith);
  session_ttl = (omega arith, omega arith);
  responses = (omega arith, omega arith);
  response_ttl = (omega arith, omega arith);
  read_bytes = (omega arith, omega arith);
}

abbrev calls : List (Call ℕ)
calls =
    use_session 7 (pos 0) (ascii "shop")
    ∷ store none (pos 1) (ascii "body") (record {
      body_encoding = ascii "utf-8";
      content_type = [];
      final_url = [];
      truncated = false;
    })
    ∷ extract (pos 2) (record {
      response_id = ascii "resp_";
      format = [];
      queries = [];
      max_results = pos 0;
      max_output_bytes = pos 0;
    })
    ∷ touch (pos 2) (ascii "shop")
    ∷ clear (pos 3) (ascii "shop")
    ∷ []

run-IsSound_example :
    (g : Fetcher ℕ) × (run
        (λ (time : Time). [])
        (λ (jar : ℕ). [])
        parsers
        calls
        (new_fetcher config)
      ≡ some g)
    × IsSound (with_defaults config) g
run-IsSound_example = run-IsSound (λ time. []) (λ jar. []) parsers config calls config-IsInt64
