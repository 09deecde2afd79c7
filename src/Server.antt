-- ===== src/Server.antt =====
-- cmd/tls-fetch-mcp/main.go: the tools as calls of the fetcher's methods. The protocol's library decodes
-- a call's arguments and sends back what the handler returns.
pub mod Registered
pub mod Panics
pub mod Sound
pub mod Harmless
pub mod Tests
use tls_fetch_mcp.Common.{Bool, List, Option, [], false, if◌then◌else◌, none, some, ◌∷◌}
use tls_fetch_mcp.Text.{Bytes, ascii}
use tls_fetch_mcp.Text.Case.{Unicode}
use tls_fetch_mcp.Text.Order.{sort_strings}
use tls_fetch_mcp.Clock.{Time}
use tls_fetch_mcp.Errors.{Error, Result, ok, err, is_panic, ◌>>=◌}
use tls_fetch_mcp.Config.Env.{config_from_env}
use tls_fetch_mcp.Fetcher.{Fetcher, new_fetcher}
use tls_fetch_mcp.Session.{SessionInfo, session_info, clear_session}
use tls_fetch_mcp.Response.Read.{ReadInput, ReadOutput, read_response}
use tls_fetch_mcp.Response.Search.{SearchInput, SearchOutput, search_response}
use tls_fetch_mcp.Extract.Types.{ExtractInput, ExtractOutput, Parsers}
use tls_fetch_mcp.Extract.{extract_response}
use tls_fetch_mcp.Request.Exchange.{Input, Output, World}
use tls_fetch_mcp.Request.Send.{do_fetch}
use tls_fetch_mcp.Tools.{
  GetInput, RequestInput, SessionWarmupInput, do_get, do_request, warmup_session,
}
use Registered.{
  Tool, get_tool, request_tool, fetch_tool, profiles_tool, session_warmup_tool, session_info_tool,
  session_clear_tool, response_read_tool, response_extract_tool, response_search_tool,
}

-- `ProfilesOutput`.
pub record ProfilesOutput : Type 0 where
  pub default : Bytes
  pub profiles : List Bytes

-- `SessionClearOutput`.
pub record SessionClearOutput : Type 0 where
  pub session_id : Bytes
  pub cleared : Bool

-- A call of a tool.
pub data Request : Type 0 where
  call_get : GetInput → Request
  call_request : RequestInput → Request
  call_fetch : Input → Request
  call_profiles : Request
  call_session_warmup : SessionWarmupInput → Request
  call_session_info call_session_clear : Bytes → Request
  call_response_read : ReadInput → Request
  call_response_extract : ExtractInput → Request
  call_response_search : SearchInput → Request

-- What a handler returns.
pub data Answer : Type 0 where
  fetched : Result Output → Answer
  profiles : ProfilesOutput → Answer
  described : Result SessionInfo → Answer
  cleared : SessionClearOutput → Option Error → Answer
  read_part : Result ReadOutput → Answer
  extracted : Result ExtractOutput → Answer
  searched : Result SearchOutput → Answer

-- How a call ends: with an answer, or with a run-time panic, after which nothing is returned.
pub data Ending : Type 0 where
  returns : Answer → Ending
  panics : Ending

-- What a call reads from outside: the network and the libraries, the clock, and the keys of
-- `profiles.MappedTLSClients` in the order in which a range loop visits them.
pub record Outside (Jar Value : Type 0) : Type 0 where
  pub world : World Jar
  pub parsers : Parsers Value
  pub now : Time
  pub format_time : Time → Bytes
  pub profile_keys : List Bytes

-- The tool that is called.
abbrev pub tool_of : Request → Tool
tool_of (call_get input) = get_tool
tool_of (call_request input) = request_tool
tool_of (call_fetch input) = fetch_tool
tool_of call_profiles = profiles_tool
tool_of (call_session_warmup input) = session_warmup_tool
tool_of (call_session_info session_id) = session_info_tool
tool_of (call_session_clear session_id) = session_clear_tool
tool_of (call_response_read input) = response_read_tool
tool_of (call_response_extract input) = response_extract_tool
tool_of (call_response_search input) = response_search_tool

-- `DefaultProfile`.
abbrev pub default_profile : Bytes
default_profile = ascii "chrome_146"

-- `ProfileNames`.
unfoldable pub profile_names : List Bytes → List Bytes
profile_names keys = sort_strings keys

-- The two values that the handler returns for what `ClearSession` returns.
abbrev pub clear_answer : Bytes → Result Bool → Answer
clear_answer session_id (ok b) = cleared (record { session_id = session_id; cleared = b }) none
clear_answer session_id (err e) =
    cleared (record { session_id = session_id; cleared = false }) (some e)

abbrev pub ended : {A : Type 0} → (Result A → Answer) → Result A → Ending
ended f (ok a) = returns (f (ok a))
ended f (err e) = if is_panic e then panics else returns (f (err e))

-- The server over some calls: it has answered all of them and is in the given state; a panic, which nothing
-- in the program recovers, has stopped it after the given answers; or a call does not end.
pub data Life (Jar : Type 0) : Type 0 where
  lives : Fetcher Jar → List Answer → Life Jar
  stopped : List Answer → Life Jar
  hangs : Life Jar

module _ {Jar : Type 0} where
  -- The state and the ending behind a method.
  abbrev pub answered :
      {A : Type 0}
      → (Result A → Answer)
      → Option (Fetcher Jar × Result A)
      → Option (Fetcher Jar × Ending)
  answered f none = none
  answered f (some (g, r)) = some (g, ended f r)

  -- An answer, and those to the calls behind it.
  abbrev pub followed_by : Answer → Life Jar → Life Jar
  followed_by a (lives g answers) = lives g (a ∷ answers)
  followed_by a (stopped answers) = stopped (a ∷ answers)
  followed_by a hangs = hangs

module _ {Jar Value : Type 0} where
  -- The handlers; `none` would be a call that does not end.
  unfoldable pub handle : Outside Jar Value → Request → Fetcher Jar → Option (Fetcher Jar × Ending)
  handle o (call_get input) f = answered fetched (do_get o.world f input)
  handle o (call_request input) f = answered fetched (do_request o.world f input)
  handle o (call_fetch input) f = answered fetched (do_fetch o.world f input)
  handle o call_profiles f = some (
    f,
    returns
        (profiles (record { default = default_profile; profiles = profile_names o.profile_keys })),
  )
  handle o (call_session_warmup input) f = answered fetched (warmup_session o.world f input)
  handle o (call_session_info session_id) f =
      answered described (some (session_info o.format_time o.world.all_cookies o.now session_id f))
  handle o (call_session_clear session_id) f =
      answered (clear_answer session_id) (some (clear_session o.now session_id f))
  handle o (call_response_read input) f =
      answered read_part (some (read_response o.format_time o.now input f))
  handle o (call_response_extract input) f =
      answered extracted (extract_response o.parsers o.now input f)
  handle o (call_response_search input) f = answered searched (search_response o.now input f)

  -- The server over its life: calls one after the other, each with what it reads from outside.
  unfoldable pub serve : List (Outside Jar Value × Request) → Fetcher Jar → Life Jar
  serve [] f = lives f []
  serve ((o, request) ∷ calls) f = elim (handle o request f) [
    | none ↦ hangs
    | some (g, panics) ↦ stopped []
    | some (g, returns a) ↦ followed_by a (serve calls g)
  ]

-- The start of `main`: the configuration from the environment, and a new fetcher.
unfoldable pub start : {Jar : Type 0} → Unicode → (Bytes → Bytes) → Result (Fetcher Jar)
start u getenv = config_from_env u getenv >>= (λ config. ok (new_fetcher config))
