-- ===== src/History/Runs.antt =====
-- Runs of the methods of Fetcher from New on.
use tls_fetch_mcp.Common.{List, [], ap, arith, refl, some, ◌∷◌, ◌≡◌}
use tls_fetch_mcp.Session.Cookies.{AllCookies}
use tls_fetch_mcp.Text.{Bytes}
use tls_fetch_mcp.Clock.{Time}
use tls_fetch_mcp.Config.{Config, with_defaults}
use tls_fetch_mcp.Config.Bounds.{IsInt64Config, IsPositive, with_defaults-IsPositive}
use tls_fetch_mcp.Fetcher.{Fetcher, new_fetcher}
use tls_fetch_mcp.Session.{session, touch_session, clear_session, session_info}
use tls_fetch_mcp.Session.Valid.{
  session-IsValid, touch_session-IsValid, clear_session-IsValid, session_info-IsValid,
}
use tls_fetch_mcp.Response.{response}
use tls_fetch_mcp.Response.Valid.{store_response-IsValid, response-IsValid}
use tls_fetch_mcp.Response.Read.{read_response}
use tls_fetch_mcp.Extract.Types.{Parsers}
use tls_fetch_mcp.Extract.Ends.{extract_response_ends}
use tls_fetch_mcp.Response.Search.Ends.{search_response_ends}
use tls_fetch_mcp.History.{
  Call, use_session, touch, clear, info, store, read, search, extract, step, state_of, run,
}
use tls_fetch_mcp.History.Frame.{
  IsSound, by_sessions, by_responses, session-SameResponses, touch_session-SameResponses,
  clear_session-SameResponses, session_info-SameResponses, response-SameSessions,
  store_response-SameSessions,
}

module _ {Jar Value : Type 0} (format_time : Time → Bytes) (all_cookies : Jar → AllCookies)
    (parsers : Parsers Value) (config : Config) where
  -- Every call ends in a sound state.
  step-IsSound :
      (call : Call Jar) (f : Fetcher Jar)
      → IsSound config f
      → (g : Fetcher Jar) × (step format_time all_cookies parsers call f ≡ some g)
        × IsSound config g
  unfolding step read_response
  step-IsSound (use_session new_jar now session_id) f s = (
    (session new_jar now session_id f).0,
    refl,
    by_sessions config f _ s (session-IsValid new_jar now session_id f s.sessions)
        (session-SameResponses new_jar now session_id f),
  )
  step-IsSound (touch now session_id) f s = (
    touch_session now session_id f,
    refl,
    by_sessions config f _ s (touch_session-IsValid now session_id f s.sessions)
        (touch_session-SameResponses now session_id f),
  )
  step-IsSound (clear now session_id) f s = (
    (clear_session now session_id f).0,
    refl,
    by_sessions config f _ s (clear_session-IsValid now session_id f s.sessions)
        (clear_session-SameResponses now session_id f),
  )
  step-IsSound (info now session_id) f s = (
    (session_info format_time all_cookies now session_id f).0,
    refl,
    by_sessions config f _ s
        (session_info-IsValid format_time all_cookies now session_id f s.sessions)
        (session_info-SameResponses format_time all_cookies now session_id f),
  )
  step-IsSound (store random now body metadata) f s =
      let (g, r, e, v) = store_response-IsValid random now body metadata f s.responses in
      (
        g,
        ap state_of e,
        by_responses config f g s v (store_response-SameSessions random now body metadata f e),
      )
  step-IsSound (read now input) f s = (
    (response now input.response_id f).0,
    refl,
    by_responses config f _ s (response-IsValid now input.response_id f s.responses)
        (response-SameSessions now input.response_id f),
  )
  step-IsSound (search now input) f s =
      let (result, e, _) = search_response_ends now input f in
      (
        (response now input.response_id f).0,
        ap state_of e,
        by_responses config f _ s (response-IsValid now input.response_id f s.responses)
            (response-SameSessions now input.response_id f),
      )
  step-IsSound (extract now input) f s =
      let (result, e) = extract_response_ends parsers now input f in
      (
        (response now input.response_id f).0,
        ap state_of e,
        by_responses config f _ s (response-IsValid now input.response_id f s.responses)
            (response-SameSessions now input.response_id f),
      )

  run_from-IsSound :
      (calls : List (Call Jar)) (f : Fetcher Jar)
      → IsSound config f
      → (g : Fetcher Jar) × (run format_time all_cookies parsers calls f ≡ some g)
        × IsSound config g
  unfolding run
  run_from-IsSound [] f s = (f, refl, s)
  run_from-IsSound (call ∷ calls) f s =
      let (g, e, v) = step-IsSound call f s in
      let (h, q, w) = run_from-IsSound calls g v in (h, rw (e, run) q, w)

-- A new fetcher is sound.
pub new-IsSound :
    {Jar : Type 0} (config : Config)
    → IsPositive (with_defaults config)
    → IsSound (with_defaults config) (new_fetcher {Jar = Jar} config)
unfolding new_fetcher
new-IsSound config p = record {
  sessions = record { distinct = tt; ids = tt; bounded = omega (arith, p.sessions.0) };
  responses = record {
    distinct = tt;
    names = tt;
    bounded = omega (arith, p.responses.0);
    room = p.responses.0;
  };
  configured = refl;
}

-- Whatever configuration `New` is given and whatever calls follow, in whatever order and with whatever
-- arguments, readings of the clock and failures of `rand.Read`, every call ends; and in the state behind
-- them no identifier occurs twice, each session has a valid identifier, and neither table holds more
-- than its limit. The fields of the configuration are `int64` values.
pub run-IsSound :
    {Jar Value : Type 0} (format_time : Time → Bytes) (all_cookies : Jar → AllCookies)
    (parsers : Parsers Value) (config : Config) (calls : List (Call Jar))
    → IsInt64Config config
    → (g : Fetcher Jar) × (run format_time all_cookies parsers calls (new_fetcher config) ≡ some g)
      × IsSound (with_defaults config) g
run-IsSound format_time all_cookies parsers config calls h =
    run_from-IsSound format_time all_cookies parsers (with_defaults config) calls
      (new_fetcher config) (new-IsSound config (with_defaults-IsPositive config h).0)
