-- ===== src/History/Frame.antt =====
-- The methods of session.go and response_store.go, each seen from the other's table.
use tls_fetch_mcp.Common.{Option, arith, refl, some, ◌∙◌, ◌≡◌}
use tls_fetch_mcp.Session.Cookies.{AllCookies}
use tls_fetch_mcp.Text.{Bytes}
use tls_fetch_mcp.Clock.{Time}
use tls_fetch_mcp.Errors.{Result}
use tls_fetch_mcp.Config.{Config}
use tls_fetch_mcp.Fetcher.{Fetcher}
use tls_fetch_mcp.Session.{
  purge_expired_sessions, open_session, session, touch_session, remove_session, clear_session,
  session_info,
}
use tls_fetch_mcp.Response.{Metadata, purge_expired_responses, store_response, response}
use tls_fetch_mcp.Session.Valid as Sessions
use tls_fetch_mcp.Response.Valid as Responses

module _ {Jar : Type 0} where
  abbrev pub SameResponses : Fetcher Jar → Fetcher Jar → Type 0
  SameResponses f g = (g.responses ≡ f.responses) × (g.config ≡ f.config)

  abbrev pub SameSessions : Fetcher Jar → Fetcher Jar → Type 0
  SameSessions f g = (g.sessions ≡ f.sessions) × (g.config ≡ f.config)

  pub purge-SameResponses :
      (now : Time) (f : Fetcher Jar) → SameResponses f (purge_expired_sessions now f)
  unfolding purge_expired_sessions
  purge-SameResponses now f = (refl, refl)

  open-SameResponses :
      (new_jar : Jar) (now : Time) (session_id : Bytes) (f : Fetcher Jar)
      → SameResponses f (open_session new_jar now session_id f).0
  unfolding open_session
  open-SameResponses new_jar now session_id f = ground arith

  pub session-SameResponses :
      (new_jar : Jar) (now : Time) (session_id : Bytes) (f : Fetcher Jar)
      → SameResponses f (session new_jar now session_id f).0
  unfolding session
  session-SameResponses new_jar now session_id f = ground (
    arith,
    open-SameResponses new_jar now session_id (purge_expired_sessions now f),
    purge-SameResponses now f,
  )

  pub touch_session-SameResponses :
      (now : Time) (session_id : Bytes) (f : Fetcher Jar)
      → SameResponses f (touch_session now session_id f)
  unfolding touch_session
  touch_session-SameResponses now session_id f = ground arith

  remove-SameResponses :
      (session_id : Bytes) (f : Fetcher Jar) → SameResponses f (remove_session session_id f).0
  unfolding remove_session
  remove-SameResponses session_id f = ground arith

  pub clear_session-SameResponses :
      (now : Time) (session_id : Bytes) (f : Fetcher Jar)
      → SameResponses f (clear_session now session_id f).0
  unfolding clear_session
  clear_session-SameResponses now session_id f = ground (
    arith,
    remove-SameResponses session_id (purge_expired_sessions now f),
    purge-SameResponses now f,
  )

  pub session_info-SameResponses :
      (format_time : Time → Bytes) (all_cookies : Jar → AllCookies) (now : Time)
      (session_id : Bytes) (f : Fetcher Jar)
      → SameResponses f (session_info format_time all_cookies now session_id f).0
  unfolding session_info
  session_info-SameResponses format_time all_cookies now session_id f =
      ground (arith, purge-SameResponses now f)

  pub response-SameSessions :
      (now : Time) (id : Bytes) (f : Fetcher Jar) → SameSessions f (response now id f).0
  unfolding response purge_expired_responses
  response-SameSessions now id f = ground arith

  pub store_response-SameSessions :
      (random : Option Bytes) (now : Time) (body : Bytes) (metadata : Metadata) (f : Fetcher Jar)
      {g : Fetcher Jar} {r : Result Bytes}
      → store_response random now body metadata f ≡ some (g, r)
      → SameSessions f g
  unfolding store_response purge_expired_responses
  store_response-SameSessions random now body metadata f e = ground arith

  -- The invariant of one table does not depend on the other.
  pub SameResponses-IsValid :
      (f g : Fetcher Jar) → SameResponses f g → Responses.IsValid f → Responses.IsValid g
  SameResponses-IsValid f g (e, q) v = record {
    distinct = rw e v.distinct;
    names = rw e v.names;
    bounded = rw (e, q) v.bounded;
    room = rw q v.room;
  }

  pub SameSessions-IsValid :
      (f g : Fetcher Jar) → SameSessions f g → Sessions.IsValid f → Sessions.IsValid g
  SameSessions-IsValid f g (e, q) v = record {
    distinct = rw e v.distinct;
    ids = rw e v.ids;
    bounded = rw (e, q) v.bounded;
  }

-- Both tables satisfy their invariants, and the configuration is the given one.
pub record IsSound {Jar : Type 0} (config : Config) (f : Fetcher Jar) : Type 0 where
  pub sessions : Sessions.IsValid f
  pub responses : Responses.IsValid f
  pub configured : f.config ≡ config

module _ {Jar : Type 0} (config : Config) where
  pub by_sessions :
      (f g : Fetcher Jar)
      → IsSound config f
      → Sessions.IsValid g
      → SameResponses f g
      → IsSound config g
  by_sessions f g s v e = record {
    sessions = v;
    responses = SameResponses-IsValid f g e s.responses;
    configured = e.1 ∙ s.configured;
  }

  pub by_responses :
      (f g : Fetcher Jar)
      → IsSound config f
      → Responses.IsValid g
      → SameSessions f g
      → IsSound config g
  by_responses f g s v e = record {
    sessions = SameSessions-IsValid f g e s.sessions;
    responses = v;
    configured = e.1 ∙ s.configured;
  }
