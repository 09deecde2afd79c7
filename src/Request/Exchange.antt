-- ===== src/Request/Exchange.antt =====
-- The data of `Do` of internal/fetch/fetch.go: its input and output, and what it exchanges with the HTTP
-- client and the rest of the world.
use tls_fetch_mcp.Common.{Bool, List, Option, ℕ, ℤ}
use tls_fetch_mcp.Text.{Bytes}
use tls_fetch_mcp.Text.Case.{Unicode}
use tls_fetch_mcp.Clock.{Time}
use tls_fetch_mcp.Table.{Table}
use tls_fetch_mcp.Policy.{Url, Resolver}
use tls_fetch_mcp.Session.Cookies.{AllCookies}
use tls_fetch_mcp.Request.{Stream}

pub record Input : Type 0 where
  pub url : Bytes
  pub method : Bytes
  pub headers : Table Bytes
  pub header_order : List Bytes
  pub body : Bytes
  pub profile : Bytes
  pub follow_redirects : Option Bool
  pub timeout_seconds : ℤ
  pub max_response_bytes : ℤ
  pub proxy_url : Bytes
  pub session_id : Bytes
  pub include_body : Option Bool
  pub store_response : Bool

pub record Output : Type 0 where
  pub status : ℕ
  pub status_text : Bytes
  pub final_url : Bytes
  pub headers : Table (List Bytes)
  pub body : Bytes
  pub body_encoding : Bytes
  pub content_type : Bytes
  pub truncated : Bool
  pub elapsed_millis : ℤ
  pub profile : Bytes
  pub session_id : Bytes
  pub cookies_stored : ℕ
  pub cookie_names : List Bytes
  pub redacted_headers : List Bytes
  pub redirect_history : List Bytes
  pub http_version : Bytes
  pub content_length : ℤ
  pub bytes_returned : ℕ
  pub response_id : Bytes

-- What the HTTP client is asked to send. With an empty `proxy_url` it connects through `dialContext`.
pub record Sent (Jar : Type 0) : Type 0 where
  pub timeout : ℤ
  pub profile : Bytes
  pub jar : Option Jar
  pub follow : Bool
  pub proxy_url : Bytes
  pub method : Bytes
  pub url : Bytes
  pub body : Bytes
  pub headers : Table Bytes
  pub header_order : List Bytes

-- What comes back if every redirect is admitted: the URLs of the redirects in order, and the answer to
-- the last request. `final_url` is `none` if the answer names no request.
pub record Reply : Type 0 where
  pub redirects : List Url
  pub status : ℕ
  pub headers : Table (List Bytes)
  pub stream : Stream
  pub final_url : Option Bytes
  pub http_version : Bytes
  pub content_length : ℤ

-- The code that `Do` calls outside the package, and what it reads from the outside.
pub record World (Jar : Type 0) : Type 0 where
  pub unicode : Unicode
  pub canonical : Bytes → Bytes
  pub parse_url : Bytes → Option Url
  -- The resolver as it answers for the URL, for the proxy, and for the redirect behind so many requests.
  pub url_resolver : Resolver
  pub proxy_resolver : Resolver
  pub redirect_resolver : ℕ → Resolver
  pub is_profile : Bytes → Bool
  pub new_client : Bool
  pub new_request : Bytes → Bytes → Bool
  pub send : Sent Jar → Option Reply
  pub status_text : ℕ → Bytes
  pub get_header : Table (List Bytes) → Bytes → Bytes
  pub new_jar : Jar
  pub all_cookies : Jar → AllCookies
  pub random : Option Bytes
  pub session_time : Time
  pub touch_time : Time
  pub store_time : Time
  pub elapsed_millis : ℤ

-- What the checks before any state is touched yield.
pub record Prepared : Type 0 where
  pub parsed : Url
  pub method : Bytes
  pub profile : Bytes
  pub timeout : ℤ
  pub response_limit : ℤ

-- What `Do` knows once the body is read.
pub record Received : Type 0 where
  pub reply : Reply
  pub history : List Bytes
  pub body : Bytes
  pub truncated : Bool
