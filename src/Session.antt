-- ===== src/Session.antt =====
-- internal/fetch/session.go: named cookie sessions that expire, and `validateSessionID` of fetch.go.
-- A method returns the new state beside its result.
use tls_fetch_mcp.Common.{
  Bool, List, Option, [], false, if◌then◌else◌, leb, leb_ℤ, length, ltb, none, pos, some, true, ℕ,
  ◌&&◌, ◌==◌, ◌||◌, ◌∷◌,
}
pub mod Cookies
pub mod Ids
pub mod Live
pub mod Valid
pub mod Tests
use Cookies.{AllCookies, cookie_summary}
use tls_fetch_mcp.Text.{Bytes, eq_bytes}
use tls_fetch_mcp.Text.Utf8.{runes}
use tls_fetch_mcp.Clock.{Time, deadline}
use tls_fetch_mcp.Table.{lookup, insert, delete}
use tls_fetch_mcp.Table.Expiry.{purge}
use tls_fetch_mcp.Errors.{
  Result, ok, err, ◌>>=◌, ◌>>◌, fail_if, session_id_required, session_id_too_long,
  session_id_characters, session_limit,
}
use tls_fetch_mcp.Fetcher.{Fetcher, SessionState}

-- The characters of a session identifier.
unfoldable pub is_session_char : ℕ → Bool
is_session_char c =
    leb b'a' c && leb c b'z'
    || leb b'A' c && leb c b'Z'
    || leb b'0' c && leb c b'9'
    || c == b'.'
    || c == b'_'
    || c == b'-'

-- The loop over the runes of the identifier.
unfoldable pub check_chars : List ℕ → Result (Unit {0})
unfolding is_session_char
check_chars [] = ok tt
check_chars (c ∷ s) = if is_session_char c then check_chars s else err session_id_characters

unfoldable pub validate_session_id : Bytes → Result (Unit {0})
unfolding check_chars
validate_session_id session_id = do
  fail_if (eq_bytes session_id []) session_id_required
  fail_if (ltb 128 (length session_id)) session_id_too_long
  check_chars (runes session_id)

-- `SessionInfoOutput`, its times formatted by the argument of `session_info`.
pub record SessionInfo : Type 0 where
  pub session_id : Bytes
  pub exists : Bool
  pub created_at : Bytes
  pub last_used_at : Bytes
  pub expires_at : Bytes
  pub cookies_stored : ℕ
  pub cookie_names : List Bytes

abbrev pub absent : Bytes → SessionInfo
absent session_id = record {
  session_id = session_id;
  exists = false;
  created_at = [];
  last_used_at = [];
  expires_at = [];
  cookies_stored = 0;
  cookie_names = [];
}

module _ {Jar : Type 0} where
  unfoldable pub purge_expired_sessions : Time → Fetcher Jar → Fetcher Jar
  unfolding purge
  purge_expired_sessions now f = record f { sessions = purge (λ s. s.expires_at) now f.sessions }

  -- The fields that a use of a session writes.
  abbrev pub refreshed : Fetcher Jar → Time → SessionState Jar → SessionState Jar
  refreshed f now state = record state {
    last_used = now;
    expires_at = deadline now f.config.session_ttl;
  }

  abbrev pub opened : Fetcher Jar → Time → Jar → SessionState Jar
  opened f now jar = record {
    jar = jar;
    created_at = now;
    last_used = now;
    expires_at = deadline now f.config.session_ttl;
  }

  -- The body of `session` behind the purge; `new_jar` is what `NewCookieJar` would return.
  unfoldable pub open_session : Jar → Time → Bytes → Fetcher Jar → Fetcher Jar × Result Jar
  open_session new_jar now session_id f = elim (lookup session_id f.sessions) [
    | some state ↦
        (record f { sessions = insert session_id (refreshed f now state) f.sessions }, ok state.jar)
    | none ↦
        if leb_ℤ f.config.max_sessions (pos (length f.sessions))
        then (f, err (session_limit f.config.max_sessions))
        else (
          record f { sessions = insert session_id (opened f now new_jar) f.sessions },
          ok new_jar,
        )
  ]

  -- `session`.
  unfoldable pub session : Jar → Time → Bytes → Fetcher Jar → Fetcher Jar × Result Jar
  unfolding open_session
  session new_jar now session_id f = elim (validate_session_id session_id) [
    | err e ↦ (f, err e)
    | ok t ↦ open_session new_jar now session_id (purge_expired_sessions now f)
  ]

  -- `touchSession`.
  unfoldable pub touch_session : Time → Bytes → Fetcher Jar → Fetcher Jar
  touch_session now session_id f =
      if eq_bytes session_id [] then f else elim (lookup session_id f.sessions) [
        | some state ↦ record f { sessions = insert session_id (refreshed f now state) f.sessions }
        | none ↦ f
      ]

  unfoldable pub remove_session : Bytes → Fetcher Jar → Fetcher Jar × Result Bool
  remove_session session_id f = elim (lookup session_id f.sessions) [
    | none ↦ (f, ok false)
    | some state ↦ (record f { sessions = delete session_id f.sessions }, ok true)
  ]

  -- `ClearSession`.
  unfoldable pub clear_session : Time → Bytes → Fetcher Jar → Fetcher Jar × Result Bool
  unfolding remove_session
  clear_session now session_id f = elim (validate_session_id session_id) [
    | err e ↦ (f, err e)
    | ok t ↦ remove_session session_id (purge_expired_sessions now f)
  ]

  module _ (format_time : Time → Bytes) (all_cookies : Jar → AllCookies) where
    unfoldable pub describe : Bytes → Option (SessionState Jar) → SessionInfo
    describe session_id none = absent session_id
    describe session_id (some state) =
        let (count, names) = cookie_summary (all_cookies state.jar) in
        record {
          session_id = session_id;
          exists = true;
          created_at = format_time state.created_at;
          last_used_at = format_time state.last_used;
          expires_at = format_time state.expires_at;
          cookies_stored = count;
          cookie_names = names;
        }

    -- `SessionInfo`.
    unfoldable pub session_info : Time → Bytes → Fetcher Jar → Fetcher Jar × Result SessionInfo
    unfolding describe
    session_info now session_id f = elim (validate_session_id session_id) [
      | err e ↦ (f, err e)
      | ok t ↦
          let f' = purge_expired_sessions now f in
          (f', ok (describe session_id (lookup session_id f'.sessions)))
    ]
