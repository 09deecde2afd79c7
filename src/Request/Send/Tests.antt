-- ===== src/Request/Send/Tests.antt =====
-- One request in a session, redirected once, whose response is stored.
use tls_fetch_mcp.Common.{[], arith, false, none, pos, refl, some, true, ℕ, ◌∷◌, ◌≡◌}
use tls_fetch_mcp.Text.{Bytes, ascii, eq_bytes}
use tls_fetch_mcp.Text.Case.{ascii_only}
use tls_fetch_mcp.Errors.{ok}
use tls_fetch_mcp.Config.{Config}
use tls_fetch_mcp.Text.Space.{trim_space}
use tls_fetch_mcp.Policy.Address.{
  is_unspecified, is_multicast, is_private, is_loopback, is_link_local_unicast, is_global_unicast,
}
use tls_fetch_mcp.Policy.{
  Url, Resolver, normal_host, validate_all, resolve, validate_ip, validate_url, validate_parsed_url,
  host_allowed,
}
use tls_fetch_mcp.Fetcher.{Fetcher, SessionState}
use tls_fetch_mcp.Response.{new_record, store_response, new_response_id, purge_expired_responses}
use tls_fetch_mcp.Text.Utf8.{runes}
use tls_fetch_mcp.Table.{lookup}
use tls_fetch_mcp.Clock.{deadline}
use tls_fetch_mcp.Session.{session, validate_session_id, purge_expired_sessions, touch_session}
use tls_fetch_mcp.Request.Headers.{set_headers}
use tls_fetch_mcp.Response.Read.{slice_bytes}
use tls_fetch_mcp.Response.Live.{handle}
use tls_fetch_mcp.History.Frame.{IsSound}
use tls_fetch_mcp.Request.{timeout, response_limit, read_body, read_limited}
use tls_fetch_mcp.Request.Exchange.{Input, Output, World, Prepared, Received, Reply}
use tls_fetch_mcp.Request.Send.{
  chosen_method, chosen_profile, prepare, is_allowed_method, follow_from, exchange, do_fetch,
  output, metadata_of, check_proxy,
}
use tls_fetch_mcp.Session.Live.{Changes}
use tls_fetch_mcp.Request.Send.Kept.{session_after, do_fetch-Keeps}
use tls_fetch_mcp.Request.Send.Readable.{IsReadable, do_fetch-IsReadable}

program : Unit {0}
unfolding trim_space normal_host validate_all is_unspecified is_multicast is_private is_loopback
    is_link_local_unicast is_global_unicast eq_bytes chosen_method chosen_profile resolve
    validate_ip host_allowed validate_url validate_parsed_url timeout response_limit prepare
    is_allowed_method follow_from
program = tt

abbrev config : Config
config = record {
  allow_private = false;
  allow_proxy = false;
  allowed_hosts = [];
  max_response_bytes = pos 1024;
  default_timeout_seconds = pos 30;
  max_timeout = pos 120;
  max_sessions = pos 2;
  session_ttl = pos 60;
  max_responses = pos 2;
  response_ttl = pos 60;
  max_read_bytes = pos 1024;
}

abbrev pub empty : Fetcher ℕ
empty = record {
  config = config;
  policy = record { allow_private = false; allowed_hosts = [] };
  sessions = [];
  responses = [];
}

empty-IsSound : IsSound config empty
empty-IsSound = record {
  sessions = record { distinct = tt; ids = tt; bounded = omega arith };
  responses = record { distinct = tt; names = tt; bounded = omega arith; room = omega arith };
  configured = refl;
}

abbrev page : Url
page = record {
  scheme = ascii "https";
  has_user = false;
  hostname = ascii "example.com";
  text = ascii "https://example.com/";
}

abbrev dns : Resolver
dns = record { parse_ip = λ host. none; lookup_ip = λ host. some ((93 ∷ 184 ∷ 216 ∷ 34 ∷ []) ∷ []) }

abbrev answer : Reply
answer = record {
  redirects = page ∷ [];
  status = 200;
  headers = [];
  stream = record { bytes = ascii "hello"; broken = false };
  final_url = none;
  http_version = ascii "HTTP/2.0";
  content_length = pos 5;
}

abbrev pub world : World ℕ
world = record {
  unicode = ascii_only;
  canonical = λ name. name;
  parse_url = λ text. some page;
  url_resolver = dns;
  proxy_resolver = dns;
  redirect_resolver = λ via. dns;
  is_profile = λ name. true;
  new_client = true;
  new_request = λ method url. true;
  send = λ sent. some answer;
  status_text = λ status. ascii "OK";
  get_header = λ headers name. [];
  new_jar = 7;
  all_cookies = λ jar. [];
  random = none;
  session_time = pos 0;
  touch_time = pos 1;
  store_time = pos 2;
  elapsed_millis = pos 1;
}

abbrev request : Input
request = record {
  url = ascii "https://example.com/";
  method = ascii " get ";
  headers = [];
  header_order = [];
  body = [];
  profile = [];
  follow_redirects = none;
  timeout_seconds = pos 0;
  max_response_bytes = pos 4;
  proxy_url = [];
  session_id = ascii "shop";
  include_body = none;
  store_response = true;
}

abbrev pub prepared : Prepared
prepared = record {
  parsed = page;
  method = ascii "GET";
  profile = ascii "chrome_146";
  timeout = pos 30;
  response_limit = pos 4;
}

abbrev random_bytes : Bytes
random_bytes = 1 ∷ 2 ∷ 3 ∷ 4 ∷ 5 ∷ 6 ∷ 7 ∷ 8 ∷ 9 ∷ 10 ∷ 11 ∷ 12 ∷ 13 ∷ 14 ∷ 15 ∷ 16 ∷ []

-- The same outside world with sixteen random bytes.
abbrev lucky : World ℕ
lucky = record world { random = some random_bytes }

-- The redirect is noted, and four of the five bytes are kept.
abbrev pub received : Received
received = record {
  reply = answer;
  history = page.text ∷ [];
  body = ascii "hell";
  truncated = true;
}

abbrev shown : Output
shown = output lucky request prepared (some 7) received (handle random_bytes)

abbrev pub used : SessionState ℕ
used = record { jar = 7; created_at = pos 0; last_used = pos 1; expires_at = pos 60000000001 }

abbrev behind : Fetcher ℕ
behind = record empty {
  sessions = (ascii "shop", used) ∷ [];
  responses =
      (
        handle random_bytes,
        new_record (pos 2) (pos 60) (ascii "hell") (metadata_of lucky prepared received),
      )
      ∷ [];
}

fetches : do_fetch lucky empty request ≡ some (behind, ok shown)
unfolding program do_fetch exchange session validate_session_id runes lookup purge_expired_sessions
    check_proxy set_headers read_body read_limited slice_bytes store_response new_response_id
    purge_expired_responses touch_session deadline
fetches = refl

do_fetch-IsReadable_example : IsReadable lucky request shown (pos 60) behind
do_fetch-IsReadable_example =
    do_fetch-IsReadable lucky empty behind request shown random_bytes empty-IsSound.responses refl
      refl refl fetches

do_fetch-Keeps_example :
    Changes (pos 0) (ascii "shop") (some (session_after lucky empty (ascii "shop"))) empty behind
do_fetch-Keeps_example = do_fetch-Keeps lucky empty behind request shown tt (λ e. absurd cc) fetches
