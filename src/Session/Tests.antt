-- ===== src/Session/Tests.antt =====
-- Two sessions, one of them expired, and the theorems at that table.
use tls_fetch_mcp.Common.{
  All, In, [], arith, false, length, pos, refl, some, true, ℕ, ◌↔◌, ◌∷◌, ◌≡◌, ◌≢◌, ◌≤◌,
}
use tls_fetch_mcp.Text.Order.{less}
use tls_fetch_mcp.Text.Order.Strings.{Increasing}
use tls_fetch_mcp.Session.Cookies.Summary.{joined, cookie_names, cookie_summary_lem}
use tls_fetch_mcp.Session.Cookies.{AllCookies, cookie_summary}
use tls_fetch_mcp.Text.{Bytes, ascii, eq_bytes}
use tls_fetch_mcp.Text.Utf8.{runes}
use tls_fetch_mcp.Clock.{Time, deadline}
use tls_fetch_mcp.Table.{lookup, insert, delete, Distinct}
use tls_fetch_mcp.Table.Expiry.{live}
use tls_fetch_mcp.Errors.{ok, err, session_limit, session_id_characters}
use tls_fetch_mcp.Config.{Config}
use tls_fetch_mcp.Fetcher.{Fetcher, SessionState}
use tls_fetch_mcp.Session.{
  validate_session_id, purge_expired_sessions, session, touch_session, clear_session, session_info,
  describe,
}
use tls_fetch_mcp.Session.Ids.{validate_session_id_iff, IsSessionByte}
use tls_fetch_mcp.Session.Valid.{IsValid}
use tls_fetch_mcp.Session.Live.{
  seen, Used, Cleared, Same, session-Used, clear_session-Cleared, session_info-seen,
}

program : Unit {0}
unfolding cookie_summary less eq_bytes purge_expired_sessions validate_session_id session
    touch_session clear_session session_info live deadline runes lookup insert delete
program = tt

abbrev config : Config
config = record {
  allow_private = false;
  allow_proxy = false;
  allowed_hosts = [];
  max_response_bytes = pos 0;
  default_timeout_seconds = pos 0;
  max_timeout = pos 0;
  max_sessions = pos 2;
  session_ttl = pos 60;
  max_responses = pos 0;
  response_ttl = pos 0;
  max_read_bytes = pos 0;
}

abbrev shop_state : SessionState ℕ
shop_state = record { jar = 7; created_at = pos 0; last_used = pos 0; expires_at = pos 60000000000 }

abbrev news_state : SessionState ℕ
news_state = record {
  jar = 8;
  created_at = pos 5000000000;
  last_used = pos 5000000000;
  expires_at = pos 65000000000;
}

abbrev two : Fetcher ℕ
two = record {
  config = config;
  policy = record { allow_private = false; allowed_hosts = [] };
  sessions = (ascii "shop", shop_state) ∷ (ascii "news", news_state) ∷ [];
  responses = [];
}

-- At 62 s the first session has expired.
abbrev now : Time
now = pos 62000000000

abbrev format_time : Time → Bytes
format_time time = []

abbrev all_cookies : ℕ → AllCookies
all_cookies jar = (some (ascii "id") ∷ some (ascii "a") ∷ []) ∷ (some (ascii "id") ∷ []) ∷ []

two-Distinct : Distinct two.sessions
unfolding program
two-Distinct = (refl, (refl, tt))

two-IsValid : IsValid two
unfolding program
two-IsValid = record { distinct = two-Distinct; ids = (refl, (refl, tt)); bounded = omega arith }

-- A full table of unexpired sessions refuses a new one; an expired session makes room.
opens :
    ((session 9 (pos 1) (ascii "blog") two).1 ≡ err (session_limit (pos 2)))
    × ((session 9 now (ascii "blog") two).1 ≡ ok 9)
    × ((session 9 now (ascii "news") two).1 ≡ ok 8)
    × ((session 9 now (ascii "shop") two).1 ≡ ok 9)
    × ((session 9 now (ascii "a b") two).1 ≡ err session_id_characters)
unfolding program
opens = (refl, refl, refl, refl, refl)

counts : cookie_summary (all_cookies 7) ≡ (3, ascii "a" ∷ ascii "id" ∷ [])
unfolding program
counts = refl

closes :
    ((clear_session now (ascii "news") two).1 ≡ ok true)
    × ((clear_session now (ascii "shop") two).1 ≡ ok false)
unfolding program
closes = (refl, refl)

session-Used_example : Used 9 now (ascii "news") two (session 9 now (ascii "news") two)
session-Used_example = session-Used now two two-Distinct 9 (ascii "news")

clear_session-Cleared_example :
    Cleared now two two-Distinct (ascii "news") (clear_session now (ascii "news") two)
clear_session-Cleared_example = clear_session-Cleared now two two-Distinct (ascii "news")

session_info-seen_example :
    ((session_info format_time all_cookies now (ascii "news") two).1
      ≡ ok (describe format_time all_cookies (ascii "news") (seen two now (ascii "news"))))
    × Same now two (session_info format_time all_cookies now (ascii "news") two).0
unfolding program
session_info-seen_example =
    session_info-seen now two two-Distinct format_time all_cookies (ascii "news") refl

validate_session_id_iff_example :
    (validate_session_id (ascii "shop.1") ≡ ok tt)
    ↔ ((ascii "shop.1" ≢ []) × (length (ascii "shop.1") ≤ 128) × All IsSessionByte (ascii "shop.1"))
validate_session_id_iff_example = validate_session_id_iff (ascii "shop.1")

cookie_summary_lem_example :
    ((cookie_summary (all_cookies 7)).0 ≡ length (joined (all_cookies 7)))
    × Increasing (cookie_summary (all_cookies 7)).1
    × ((name : Bytes)
        → In name (cookie_summary (all_cookies 7)).1
          ↔ In name (cookie_names (joined (all_cookies 7))))
cookie_summary_lem_example = cookie_summary_lem (all_cookies 7)
