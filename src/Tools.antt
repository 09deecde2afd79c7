-- ===== src/Tools.antt =====
-- internal/fetch/tools.go: the entry points of the tools for reading, for changing, and for opening a
-- session, each a call of `Do`.
use tls_fetch_mcp.Common.{Bool, List, Option, [], false, if◌then◌else◌, some, ℤ, ◌||◌}
pub mod Methods
pub mod Warmup
pub mod Tests
use tls_fetch_mcp.Text.{Bytes, ascii, eq_bytes}
use tls_fetch_mcp.Text.Case.{to_upper}
use tls_fetch_mcp.Text.Space.{trim_space}
use tls_fetch_mcp.Table.{Table}
use tls_fetch_mcp.Errors.{Result, ok, err, get_only, method_required, use_get}
use tls_fetch_mcp.Fetcher.{Fetcher}
use tls_fetch_mcp.Session.{validate_session_id}
use tls_fetch_mcp.Request.Exchange.{Input, Output, World}
use tls_fetch_mcp.Request.Send.{chosen_method, do_fetch}

pub record GetInput : Type 0 where
  pub url : Bytes
  pub method : Bytes
  pub headers : Table Bytes
  pub header_order : List Bytes
  pub profile : Bytes
  pub follow_redirects : Option Bool
  pub timeout_seconds : ℤ
  pub max_response_bytes : ℤ
  pub proxy_url : Bytes
  pub session_id : Bytes
  pub include_body : Option Bool
  pub store_response : Bool

-- `RequestInput` has the fields of `Input`.
abbrev pub RequestInput : Type 0
RequestInput = Input

pub record SessionWarmupInput : Type 0 where
  pub url : Bytes
  pub session_id : Bytes
  pub headers : Table Bytes
  pub header_order : List Bytes
  pub profile : Bytes
  pub follow_redirects : Option Bool
  pub timeout_seconds : ℤ
  pub max_response_bytes : ℤ
  pub proxy_url : Bytes

abbrev pub reads_only : Bytes → Bool
reads_only method = eq_bytes method (ascii "GET") || eq_bytes method (ascii "HEAD")

-- The request that `DoGet` makes.
abbrev pub get_request : GetInput → Bytes → Input
get_request input method = record {
  url = input.url;
  method = method;
  headers = input.headers;
  header_order = input.header_order;
  body = [];
  profile = input.profile;
  follow_redirects = input.follow_redirects;
  timeout_seconds = input.timeout_seconds;
  max_response_bytes = input.max_response_bytes;
  proxy_url = input.proxy_url;
  session_id = input.session_id;
  include_body = input.include_body;
  store_response = input.store_response;
}

module _ {Jar : Type 0} (w : World Jar) (f : Fetcher Jar) where
  -- `DoGet`.
  unfoldable pub do_get : GetInput → Option (Fetcher Jar × Result Output)
  do_get input =
      let method = chosen_method w input.method in
      if reads_only method
      then do_fetch w f (get_request input method)
      else some (f, err (get_only method))

  -- `DoRequest`.
  unfoldable pub do_request : RequestInput → Option (Fetcher Jar × Result Output)
  do_request input =
      let method = to_upper w.unicode (trim_space input.method) in
      if eq_bytes method []
      then some (f, err method_required)
      else if reads_only method
      then some (f, err (use_get method))
      else do_fetch w f (record input { method = method })

  -- `WarmupSession`: a GET whose body is not returned.
  unfoldable pub warmup_session : SessionWarmupInput → Option (Fetcher Jar × Result Output)
  warmup_session input = elim (validate_session_id input.session_id) [
    | err e ↦ some (f, err e)
    | ok t ↦ do_get (record {
      url = input.url;
      method = [];
      headers = input.headers;
      header_order = input.header_order;
      profile = input.profile;
      follow_redirects = input.follow_redirects;
      timeout_seconds = input.timeout_seconds;
      max_response_bytes = input.max_response_bytes;
      proxy_url = input.proxy_url;
      session_id = input.session_id;
      include_body = some false;
      store_response = false;
    })
  ]
