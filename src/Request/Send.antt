-- ===== src/Request/Send.antt =====
-- `Do` of internal/fetch/fetch.go, with the HTTP client, the names' resolution and the clock as
-- arguments. `Do` takes the mutex only inside the methods that it calls; here no other call comes in
-- between.
use tls_fetch_mcp.Common.{
  Bool, List, Option, [], if◌then◌else◌, leb, length, none, not, some, true, ℕ, ◌+◌, ◌∷◌,
}
pub mod Guards
pub mod Steps
pub mod Parts
pub mod Delivered
pub mod Readable
pub mod Kept
pub mod Tests
use mathlib.Core.Option
use tls_fetch_mcp.Text.{Bytes, ascii, eq_bytes, one_of}
use tls_fetch_mcp.Text.Case.{to_lower, to_upper}
use tls_fetch_mcp.Text.Space.{trim_space}
use tls_fetch_mcp.Encoding.{encode_body}
use tls_fetch_mcp.Errors.{
  Result, ok, err, ◌>>=◌, ◌>>◌, fail_if, wrap, or_fail, url_required, unsupported_method,
  unknown_profile, proxy_disabled, invalid_proxy, client_failed, new_request_failed, request_failed,
  too_many_redirects, redirect_refused,
}
use tls_fetch_mcp.Policy.{Policy, Url, validate_url, validate_parsed_url, validate_proxy_url}
use tls_fetch_mcp.Fetcher.{Fetcher}
use tls_fetch_mcp.Session.{session, touch_session}
use tls_fetch_mcp.Session.Cookies.{cookie_summary}
use tls_fetch_mcp.Response.{Metadata, store_response}
use tls_fetch_mcp.Response.Headers.{sanitize_response_headers}
use tls_fetch_mcp.Request.{timeout, response_limit, read_body}
use tls_fetch_mcp.Request.Exchange.{Input, Output, World, Prepared, Received}
use tls_fetch_mcp.Request.Headers.{set_headers}

abbrev pub allowed_methods : List Bytes
allowed_methods =
    ascii "GET"
    ∷ ascii "HEAD"
    ∷ ascii "POST"
    ∷ ascii "PUT"
    ∷ ascii "PATCH"
    ∷ ascii "DELETE"
    ∷ ascii "OPTIONS"
    ∷ []

unfoldable pub is_allowed_method : Bytes → Bool
unfolding eq_bytes
is_allowed_method method = one_of method allowed_methods

abbrev or_text : Bytes → Bytes → Bytes
or_text [] default = default
or_text (c ∷ s) default = c ∷ s

-- A missing flag counts as true.
abbrev pub flag : Option Bool → Bool
flag none = true
flag (some b) = b

module _ {Jar : Type 0} (w : World Jar) where
  unfoldable pub chosen_method : Bytes → Bytes
  unfolding to_upper trim_space
  chosen_method method = or_text (to_upper w.unicode (trim_space method)) (ascii "GET")

  unfoldable pub chosen_profile : Bytes → Bytes
  unfolding to_lower trim_space
  chosen_profile profile = or_text (to_lower w.unicode (trim_space profile)) (ascii "chrome_146")

  unfoldable pub prepare : Fetcher Jar → Input → Result Prepared
  prepare f input = do
    fail_if (eq_bytes (trim_space input.url) []) url_required
    parsed ← validate_url w.unicode f.policy w.url_resolver w.parse_url input.url
    let method = chosen_method input.method
    fail_if (not (is_allowed_method method)) (unsupported_method method)
    let profile = chosen_profile input.profile
    fail_if (not (w.is_profile profile)) (unknown_profile profile)
    t ← timeout f.config input.timeout_seconds
    n ← response_limit f.config input.max_response_bytes
    ok (record {
      parsed = parsed;
      method = method;
      profile = profile;
      timeout = t;
      response_limit = n;
    })

  unfoldable pub check_proxy : Fetcher Jar → Bytes → Result (Unit {0})
  check_proxy f proxy_url = if eq_bytes proxy_url [] then ok tt else (do
    fail_if (not f.config.allow_proxy) proxy_disabled
    wrap invalid_proxy
        (validate_proxy_url w.unicode f.policy w.proxy_resolver w.parse_url proxy_url))

  -- The client's calls of the redirect function, behind so many requests: the URLs it notes.
  unfoldable pub follow_from : Policy → ℕ → List Url → Result (List Bytes)
  follow_from p via [] = ok []
  follow_from p via (url ∷ urls) = do
    fail_if (leb 10 via) too_many_redirects
    validate_parsed_url w.unicode p (w.redirect_resolver via) url
    history ← follow_from p (via + 1) urls
    ok (url.text ∷ history)

  -- `Do` from the check of the proxy to the reading of the body. The client reports what the redirect
  -- function returns.
  unfoldable pub exchange : Fetcher Jar → Input → Prepared → Option Jar → Result Received
  exchange f input p jar = do
    check_proxy f input.proxy_url
    fail_if (not w.new_client) client_failed
    fail_if (not (w.new_request p.method p.parsed.text)) new_request_failed
    (headers, order) ← set_headers w.unicode w.canonical input.headers input.header_order p.profile
    let follow = flag input.follow_redirects
    reply ←
        or_fail
          (w.send (record {
            timeout = p.timeout;
            profile = p.profile;
            jar = jar;
            follow = follow;
            proxy_url = input.proxy_url;
            method = p.method;
            url = p.parsed.text;
            body = input.body;
            headers = headers;
            header_order = order;
          }))
          request_failed
    history ←
        wrap redirect_refused (if follow then follow_from f.policy 1 reply.redirects else ok [])
    (body, truncated) ← read_body p.response_limit reply.stream
    ok (record { reply = reply; history = history; body = body; truncated = truncated })

  abbrev summary : Option Jar → ℕ × List Bytes
  summary none = (0, [])
  summary (some jar) = cookie_summary (w.all_cookies jar)

  abbrev pub touched : Option Jar → Bytes → Fetcher Jar → Fetcher Jar
  touched none session_id f = f
  touched (some jar) session_id f = touch_session w.touch_time session_id f

  abbrev pub or_url : Option Bytes → Bytes → Bytes
  or_url none url = url
  or_url (some final_url) url = final_url

  abbrev pub output : Input → Prepared → Option Jar → Received → Bytes → Output
  output input p jar r response_id =
      let reply = r.reply in
      let (body, encoding) = encode_body r.body in
      let (count, names) = summary jar in
      let (headers, redacted) = sanitize_response_headers w.unicode reply.headers in
      record {
        status = reply.status;
        status_text = w.status_text reply.status;
        final_url = or_url reply.final_url p.parsed.text;
        headers = headers;
        body = if flag input.include_body then body else [];
        body_encoding = encoding;
        content_type = w.get_header reply.headers (ascii "Content-Type");
        truncated = r.truncated;
        elapsed_millis = w.elapsed_millis;
        profile = p.profile;
        session_id = input.session_id;
        cookies_stored = count;
        cookie_names = names;
        redacted_headers = redacted;
        redirect_history = r.history;
        http_version = reply.http_version;
        content_length = reply.content_length;
        bytes_returned = length r.body;
        response_id = response_id;
      }

  abbrev pub stored_output :
      Input
      → Prepared
      → Option Jar
      → Received
      → Fetcher Jar × Result Bytes
      → Fetcher Jar × Result Output
  stored_output input p jar r (g, result) = (g, result >>= λ id. ok (output input p jar r id))

  abbrev pub metadata_of : Prepared → Received → Metadata
  metadata_of p r = record {
    body_encoding = (encode_body r.body).1;
    content_type = w.get_header r.reply.headers (ascii "Content-Type");
    final_url = or_url r.reply.final_url p.parsed.text;
    truncated = r.truncated;
  }

  -- `Do` behind the reading of the body.
  unfoldable pub finish :
      Fetcher Jar → Input → Prepared → Option Jar → Received → Option (Fetcher Jar × Result Output)
  finish f input p jar r =
      let g = touched jar input.session_id f in
      if input.store_response
      then Option.map (stored_output input p jar r)
          (store_response w.random w.store_time r.body (metadata_of p r) g)
      else some (g, ok (output input p jar r []))

  unfoldable pub send_prepared :
      Fetcher Jar → Input → Prepared → Option Jar → Option (Fetcher Jar × Result Output)
  unfolding exchange finish
  send_prepared f input p jar = elim (exchange f input p jar) [
    | err e ↦ some (f, err e)
    | ok r ↦ finish f input p jar r
  ]

  abbrev pub in_session :
      Input → Prepared → Fetcher Jar × Result Jar → Option (Fetcher Jar × Result Output)
  in_session input p (g, err e) = some (g, err e)
  in_session input p (g, ok jar) = send_prepared g input p (some jar)

  -- `Do`; `none` would be a loop that does not end.
  unfoldable pub do_fetch : Fetcher Jar → Input → Option (Fetcher Jar × Result Output)
  unfolding prepare send_prepared
  do_fetch f input = elim (prepare f input) [
    | err e ↦ some (f, err e)
    | ok p ↦
        if eq_bytes input.session_id []
        then send_prepared f input p none
        else in_session input p (session w.new_jar w.session_time input.session_id f)
  ]
