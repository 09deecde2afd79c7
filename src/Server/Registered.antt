-- ===== src/Server/Registered.antt =====
-- The tools that newServer of cmd/tls-fetch-mcp/main.go registers.
use tls_fetch_mcp.Common.{Bool, Option, false, none, some, true, ◌++◌}
use tls_fetch_mcp.Text.{Bytes, ascii}

-- `mcp.Tool` with its annotations; `none` is a hint that is not given.
pub record Tool : Type 0 where
  pub name : Bytes
  pub title : Bytes
  pub description : Bytes
  pub read_only : Bool
  pub destructive : Option Bool
  pub open_world : Option Bool

abbrev pub get_tool : Tool
get_tool = record {
  name = ascii "tls_get";
  title = ascii "TLS Get";
  description =
      ascii "Send an authorized GET or HEAD request with a browser-like TLS fingerprint. Use "
      ++ (ascii "this as the default tool for web inspection, API discovery and scraping. Supports "
          ++ (ascii "cookie sessions, redirects, bounded bodies and temporary response handles for "
              ++ (ascii "extraction, search or ranged reads.")));
  read_only = true;
  destructive = none;
  open_world = some true;
}

abbrev pub request_tool : Tool
request_tool = record {
  name = ascii "tls_request";
  title = ascii "TLS Request";
  description =
      ascii "Send an authorized mutating HTTP request (POST, PUT, PATCH, DELETE or OPTIONS) "
      ++ (ascii "with a browser-like TLS fingerprint. Use tls_get for GET and HEAD. Supports "
          ++ (ascii
                "request bodies, cookie sessions and temporary response handles for extraction, "
              ++ (ascii "search or ranged reads.")));
  read_only = false;
  destructive = some true;
  open_world = some true;
}

abbrev pub fetch_tool : Tool
fetch_tool = record {
  name = ascii "tls_fetch";
  title = ascii "TLS Fetch (Compatibility)";
  description =
      ascii "Compatibility tool for existing clients. Send any supported HTTP method with a "
      ++ (ascii "browser-like TLS fingerprint. New integrations should use tls_get for GET/HEAD "
          ++ (ascii
                "and tls_request for mutating methods. Supports browser profiles, custom headers, "
              ++ (ascii
                    "redirects, response limits, proxies and cookie sessions. Private and loopback "
                  ++ (ascii "targets are blocked unless enabled by server configuration."))));
  read_only = false;
  destructive = some true;
  open_world = some true;
}

abbrev pub profiles_tool : Tool
profiles_tool = record {
  name = ascii "tls_profiles";
  title = ascii "TLS Profiles";
  description = ascii "List the browser TLS fingerprints accepted by the TLS request tools.";
  read_only = true;
  destructive = none;
  open_world = some false;
}

abbrev pub session_warmup_tool : Tool
session_warmup_tool = record {
  name = ascii "tls_session_warmup";
  title = ascii "Warm Up TLS Session";
  description =
      ascii "GET a regional homepage or bootstrap URL without returning its body, then retain "
      ++ (ascii "cookies in a named in-memory session. Use before a cookie-gated catalog or API "
          ++ (ascii "request and reuse the same session_id."));
  read_only = false;
  destructive = none;
  open_world = some true;
}

abbrev pub session_info_tool : Tool
session_info_tool = record {
  name = ascii "tls_session_info";
  title = ascii "TLS Session Info";
  description =
      ascii "Inspect the existence, expiry and non-secret cookie metadata of one in-memory TLS "
      ++ (ascii "session.");
  read_only = true;
  destructive = none;
  open_world = some false;
}

abbrev pub session_clear_tool : Tool
session_clear_tool = record {
  name = ascii "tls_session_clear";
  title = ascii "Clear TLS Session";
  description = ascii "Delete one in-memory cookie session created by the TLS request tools.";
  read_only = false;
  destructive = some true;
  open_world = some false;
}

abbrev pub response_read_tool : Tool
response_read_tool = record {
  name = ascii "tls_response_read";
  title = ascii "Read Stored TLS Response";
  description =
      ascii "Read a byte range from a temporary bounded response created with "
      ++ (ascii "store_response=true. Handles expire automatically.");
  read_only = true;
  destructive = none;
  open_world = some false;
}

abbrev pub response_extract_tool : Tool
response_extract_tool = record {
  name = ascii "tls_response_extract";
  title = ascii "Extract Stored TLS Response";
  description =
      ascii "Extract compact structured values from a temporary stored response. Supports CSS "
      ++ (ascii "selectors for HTML and RFC 9535 JSONPath for JSON, with bounded query counts, "
          ++ (ascii "result counts and serialized output."));
  read_only = true;
  destructive = none;
  open_world = some false;
}

abbrev pub response_search_tool : Tool
response_search_tool = record {
  name = ascii "tls_response_search";
  title = ascii "Search Stored TLS Response";
  description =
      ascii "Search literal text in a temporary UTF-8 response and return compact context "
      ++ (ascii "windows instead of the entire body.");
  read_only = true;
  destructive = none;
  open_world = some false;
}
