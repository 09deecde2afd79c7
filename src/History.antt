-- ===== src/History.antt =====
-- The fetcher over its whole life: the methods, called from any number of goroutines, take the mutex one
-- after the other, so that a history is a sequence of calls.
use tls_fetch_mcp.Common.{List, Option, [], none, some, ◌∷◌}
pub mod Frame
use tls_fetch_mcp.Session.Cookies.{AllCookies}
use tls_fetch_mcp.Text.{Bytes}
use tls_fetch_mcp.Clock.{Time}
use tls_fetch_mcp.Errors.{Result}
use tls_fetch_mcp.Fetcher.{Fetcher}
use tls_fetch_mcp.Session.{session, touch_session, clear_session, session_info}
use tls_fetch_mcp.Response.{Metadata, store_response}
use tls_fetch_mcp.Response.Read.{ReadInput, read_response}
use tls_fetch_mcp.Extract.{extract_response}
use tls_fetch_mcp.Extract.Types.{ExtractInput, Parsers}
use tls_fetch_mcp.Response.Search.{SearchInput, search_response}
pub mod Runs
pub mod Tests

-- A call of a method that takes the mutex, with what it reads from outside: the clock, a new jar, the
-- random bytes.
pub data Call (Jar : Type 0) : Type 0 where
  use_session : Jar → Time → Bytes → Call Jar
  touch clear info : Time → Bytes → Call Jar
  store : Option Bytes → Time → Bytes → Metadata → Call Jar
  read : Time → ReadInput → Call Jar
  search : Time → SearchInput → Call Jar
  extract : Time → ExtractInput → Call Jar

module _ {Jar Answer : Type 0} where
  abbrev pub state_of : Option (Fetcher Jar × Result Answer) → Option (Fetcher Jar)
  state_of none = none
  state_of (some (f, r)) = some f

module _ {Jar Value : Type 0} (format_time : Time → Bytes) (all_cookies : Jar → AllCookies)
    (parsers : Parsers Value) where
  -- The state behind a call; `none` would be a loop that does not end.
  unfoldable pub step : Call Jar → Fetcher Jar → Option (Fetcher Jar)
  step (use_session new_jar now session_id) f = some (session new_jar now session_id f).0
  step (touch now session_id) f = some (touch_session now session_id f)
  step (clear now session_id) f = some (clear_session now session_id f).0
  step (info now session_id) f = some (session_info format_time all_cookies now session_id f).0
  step (store random now body metadata) f = state_of (store_response random now body metadata f)
  step (read now input) f = some (read_response format_time now input f).0
  step (search now input) f = state_of (search_response now input f)
  step (extract now input) f = state_of (extract_response parsers now input f)

  -- The state behind a history.
  unfoldable pub run : List (Call Jar) → Fetcher Jar → Option (Fetcher Jar)
  run [] f = some f
  run (call ∷ calls) f = elim (step call f) [ none ↦ none | some g ↦ run calls g ]
