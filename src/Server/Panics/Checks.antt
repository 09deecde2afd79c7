-- ===== src/Server/Panics/Checks.antt =====
-- The checks of a request of internal/fetch, the reading of its body, and the methods of session.go.
use tls_fetch_mcp.Common.{List, Option, [], arith, false, inl, inr, pos, some, ℕ, ℤ, ◌<ℤ◌, ◌∷◌, ◌≡◌}
use tls_fetch_mcp.Text.{Bytes}
use tls_fetch_mcp.Table.{Table, insert}
use tls_fetch_mcp.Clock.{Time}
use tls_fetch_mcp.Errors.{
  Error, Result, ok, err, is_panic, Result-cases, Calm, Calm-bind, Calm-then, Calm-fail_if,
  Calm-wrap, Calm-or_fail, Calm-err, wrap,
}
use tls_fetch_mcp.Config.{Config}
use tls_fetch_mcp.Fetcher.{Fetcher}
use tls_fetch_mcp.Policy.Address.{Ip}
use tls_fetch_mcp.Policy.{
  Policy, Resolver, Url, resolve, validate_ip, validate_all, validate_parsed_url, validate_url,
}
use tls_fetch_mcp.Session.{
  check_chars, validate_session_id, open_session, purge_expired_sessions, session, clear_session,
  remove_session, session_info,
}
use tls_fetch_mcp.Session.Cookies.{AllCookies}
use tls_fetch_mcp.Response.{Metadata, new_response_id, store_response}
use tls_fetch_mcp.Response.Read.{slice_bytes}
use tls_fetch_mcp.Request.{Stream, timeout, response_limit, read_limited, read_body}
use tls_fetch_mcp.Request.Headers.{check_header, set_supplied, set_headers}
use tls_fetch_mcp.Text.Case.{Unicode}

pub resolve-Calm : (r : Resolver) (host : Bytes) → Calm (resolve r host)
unfolding resolve
resolve-Calm r host = ground arith

pub validate_ip-Calm : (p : Policy) (ip : Ip) → Calm (validate_ip p ip)
unfolding validate_ip
validate_ip-Calm p ip = ground arith

pub validate_all-Calm :
    (p : Policy) (f : Error → Error) (l : List Ip)
    → ((e : Error) → is_panic (f e) ≡ false)
    → Calm (validate_all p f l)
unfolding validate_all
validate_all-Calm p f [] h = tt
validate_all-Calm p f (ip ∷ l) h =
    Calm-then (wrap f (validate_ip p ip)) (validate_all p f l) (Calm-wrap f (validate_ip p ip) h)
      (validate_all-Calm p f l h)

pub validate_parsed_url-Calm :
    (u : Unicode) (p : Policy) (r : Resolver) (url : Url) → Calm (validate_parsed_url u p r url)
unfolding validate_parsed_url
validate_parsed_url-Calm u p r url =
    search (Calm-then, Calm-bind, Calm-fail_if, resolve-Calm, validate_all-Calm, arith) depth 14

pub validate_url-Calm :
    (u : Unicode) (p : Policy) (r : Resolver) (parse_url : Bytes → Option Url) (raw : Bytes)
    → Calm (validate_url u p r parse_url raw)
unfolding validate_url
validate_url-Calm u p r parse_url raw =
    search (Calm-then, Calm-bind, Calm-or_fail, validate_parsed_url-Calm, arith) depth 14

pub timeout-Calm : (config : Config) (n : ℤ) → Calm (timeout config n)
unfolding timeout
timeout-Calm config n = ground arith

pub response_limit-Calm : (config : Config) (n : ℤ) → Calm (response_limit config n)
unfolding response_limit
response_limit-Calm config n = ground arith

pub check_chars-Calm : (s : List ℕ) → Calm (check_chars s)
unfolding check_chars
check_chars-Calm [] = tt
check_chars-Calm (c ∷ s) = ground (arith, check_chars-Calm s)

pub validate_session_id-Calm : (id : Bytes) → Calm (validate_session_id id)
unfolding validate_session_id
validate_session_id-Calm id = search (Calm-then, Calm-fail_if, check_chars-Calm, arith) depth 14

pub check_header-Calm : (u : Unicode) (name value : Bytes) → Calm (check_header u name value)
unfolding check_header
check_header-Calm u name value = search (Calm-then, Calm-fail_if, arith) depth 14

pub set_supplied-Calm :
    (u : Unicode) (canonical : Bytes → Bytes) (headers supplied : Table Bytes)
    → Calm (set_supplied u canonical headers supplied)
unfolding set_supplied
set_supplied-Calm u canonical headers [] = tt
set_supplied-Calm u canonical headers ((name, value) ∷ rest) =
    Calm-then (check_header u name value)
      (set_supplied u canonical (insert (canonical name) value headers) rest)
      (check_header-Calm u name value)
      (set_supplied-Calm u canonical (insert (canonical name) value headers) rest)

pub set_headers-Calm :
    (u : Unicode) (canonical : Bytes → Bytes) (supplied : Table Bytes) (order : List Bytes)
    (profile : Bytes)
    → Calm (set_headers u canonical supplied order profile)
unfolding set_headers
set_headers-Calm u canonical supplied order profile =
    search (Calm-bind, set_supplied-Calm, arith) depth 8

-- The slice expression of the reading is within its bounds, since the limit is positive.
pub read_body-Calm : (limit : ℤ) (stream : Stream) → pos 0 <ℤ limit → Calm (read_body limit stream)
unfolding read_body read_limited slice_bytes
read_body-Calm limit stream h = ground arith

module _ {Jar : Type 0} where
  pub open_session-Calm :
      (new_jar : Jar) (now : Time) (id : Bytes) (f : Fetcher Jar)
      → Calm (open_session new_jar now id f).1
  unfolding open_session
  open_session-Calm new_jar now id f = ground arith

  pub session-Calm :
      (new_jar : Jar) (now : Time) (id : Bytes) (f : Fetcher Jar)
      → Calm (session new_jar now id f).1
  unfolding session
  session-Calm new_jar now id f = elim (Result-cases (validate_session_id id)) [
    | inl (t, q) ↦ rw (q, session) (open_session-Calm new_jar now id (purge_expired_sessions now f))
    | inr (e, q) ↦
        rw (q, session) (Calm-err (validate_session_id id) e (validate_session_id-Calm id) q)
  ]

  pub clear_session-Calm :
      (now : Time) (id : Bytes) (f : Fetcher Jar) → Calm (clear_session now id f).1
  unfolding clear_session remove_session
  clear_session-Calm now id f = ground (arith, validate_session_id-Calm id)

  pub session_info-Calm :
      (format_time : Time → Bytes) (all_cookies : Jar → AllCookies) (now : Time) (id : Bytes)
      (f : Fetcher Jar)
      → Calm (session_info format_time all_cookies now id f).1
  unfolding session_info
  session_info-Calm format_time all_cookies now id f = ground (arith, validate_session_id-Calm id)

  pub store_response-Calm :
      (random : Option Bytes) (now : Time) (body : Bytes) (m : Metadata) (f g : Fetcher Jar)
      (r : Result Bytes)
      → store_response random now body m f ≡ some (g, r)
      → Calm r
  unfolding store_response new_response_id
  store_response-Calm random now body m f g (ok id) h = tt
  store_response-Calm random now body m f g (err e) h = ground arith
