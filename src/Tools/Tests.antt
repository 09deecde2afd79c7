-- ===== src/Tools/Tests.antt =====
-- A method in small letters with blanks, one that DoGet refuses, and a session that is warmed up.
use tls_fetch_mcp.Common.{[], false, none, pos, refl, some, ℕ, ◌∷◌, ◌≡◌}
use tls_fetch_mcp.Text.{ascii, eq_bytes}
use tls_fetch_mcp.Text.Case.{to_upper}
use tls_fetch_mcp.Text.Space.{trim_space}
use tls_fetch_mcp.Errors.{err, ok, get_only, use_get, method_required}
use tls_fetch_mcp.Request.Send.{
  output, chosen_method, do_fetch, chosen_profile, prepare, is_allowed_method, follow_from,
  exchange, check_proxy,
}
use tls_fetch_mcp.Policy.Address.{
  is_unspecified, is_multicast, is_private, is_loopback, is_link_local_unicast, is_global_unicast,
}
use tls_fetch_mcp.Policy.{
  normal_host, validate_all, resolve, validate_ip, validate_url, validate_parsed_url, host_allowed,
}
use tls_fetch_mcp.Response.{store_response, new_response_id, purge_expired_responses}
use tls_fetch_mcp.Text.Utf8.{runes}
use tls_fetch_mcp.Table.{lookup}
use tls_fetch_mcp.Clock.{deadline}
use tls_fetch_mcp.Session.{session, validate_session_id, purge_expired_sessions, touch_session}
use tls_fetch_mcp.Request.Headers.{set_headers}
use tls_fetch_mcp.Response.Read.{slice_bytes}
use tls_fetch_mcp.Request.{timeout, response_limit, read_body, read_limited}
use tls_fetch_mcp.Fetcher.{Fetcher}
use tls_fetch_mcp.Request.Exchange.{Output}
use tls_fetch_mcp.Tools.Warmup.{Warmed, warmup_request, warmup_session-Warmed}
use tls_fetch_mcp.Request.Send.Tests.{world, empty, prepared, received, used}
use tls_fetch_mcp.Tools.{
  SessionWarmupInput, warmup_session, GetInput, do_get, do_request, get_request,
}

program : Unit {0}
unfolding eq_bytes to_upper trim_space chosen_method do_get do_request
program = tt

abbrev head_page : GetInput
head_page = record {
  url = ascii "https://example.com/";
  method = ascii " head ";
  headers = [];
  header_order = [];
  profile = [];
  follow_redirects = none;
  timeout_seconds = pos 0;
  max_response_bytes = pos 0;
  proxy_url = [];
  session_id = [];
  include_body = none;
  store_response = false;
}

gates :
    (do_get world empty (record head_page { method = ascii "post" })
      ≡ some (empty, err (get_only (ascii "POST"))))
    × (do_get world empty head_page ≡ do_fetch world empty (get_request head_page (ascii "HEAD")))
    × (do_request world empty (get_request head_page (ascii "get"))
        ≡ some (empty, err (use_get (ascii "GET"))))
    × (do_request world empty (get_request head_page []) ≡ some (empty, err method_required))
unfolding program
gates = (refl, refl, refl, refl)

abbrev warm : SessionWarmupInput
warm = record {
  url = ascii "https://example.com/";
  session_id = ascii "shop";
  headers = [];
  header_order = [];
  profile = [];
  follow_redirects = none;
  timeout_seconds = pos 0;
  max_response_bytes = pos 4;
  proxy_url = [];
}

abbrev warmed : Fetcher ℕ
warmed = record empty { sessions = (ascii "shop", used) ∷ [] }

abbrev quiet : Output
quiet = output world (warmup_request warm) prepared (some 7) received []

warms : warmup_session world empty warm ≡ some (warmed, ok quiet)
unfolding trim_space normal_host validate_all is_unspecified is_multicast is_private is_loopback
    is_link_local_unicast is_global_unicast eq_bytes chosen_method chosen_profile resolve
    validate_ip host_allowed validate_url validate_parsed_url timeout response_limit prepare
    is_allowed_method follow_from do_fetch exchange session validate_session_id runes lookup
    purge_expired_sessions check_proxy set_headers read_body read_limited slice_bytes store_response
    new_response_id purge_expired_responses touch_session deadline do_get warmup_session
warms = refl

warmup_session-Warmed_example :
    (validate_session_id (ascii "shop") ≡ ok tt) × Warmed world empty warm warmed quiet
warmup_session-Warmed_example = warmup_session-Warmed world empty warmed warm quiet tt warms
