-- ===== src/Request/Send/Kept.antt =====
-- Do of internal/fetch/fetch.go and the session that it leaves.
use tls_fetch_mcp.Common.{
  Option, Option-cases, [], ap, arith, false, inl, inr, some, subst, sym, ◌∙◌, ◌≡◌, ◌≢◌,
}
use tls_fetch_mcp.Text.{Bytes, eq_bytes, eq_bytes_iff, eq_bytes_refl}
use tls_fetch_mcp.Clock.{Time, deadline}
use tls_fetch_mcp.Table.{lookup, Distinct}
use tls_fetch_mcp.Table.Laws.{lookup-insert}
use tls_fetch_mcp.Table.Expiry.{live, live-insert, lookup-purge}
use tls_fetch_mcp.Errors.{ok}
use tls_fetch_mcp.Fetcher.{Fetcher, SessionState}
use tls_fetch_mcp.Session.{
  purge_expired_sessions, open_session, session, touch_session, refreshed, opened,
}
use tls_fetch_mcp.Session.Live.{expires, seen, Changes, after_use, Used, session-Used}
use tls_fetch_mcp.History.Frame.{store_response-SameSessions}
use tls_fetch_mcp.Request.Exchange.{Input, Output, World}
use tls_fetch_mcp.Request.Send.{do_fetch, touched, metadata_of}
use tls_fetch_mcp.Request.Send.Steps.{Ran, do_fetch-Ran}
use tls_fetch_mcp.Request.Send.Parts.{finish-Finished}

module _ {Jar : Type 0} where
  open-lookup :
      (new_jar : Jar) (now : Time) (id : Bytes) (f g : Fetcher Jar) (jar : Jar)
      → open_session new_jar now id f ≡ (g, ok jar)
      → lookup id g.sessions ≡ some (after_use f now new_jar (lookup id f.sessions))
  unfolding open_session
  open-lookup new_jar now id f g jar h = elim (Option-cases (lookup id f.sessions)) [
    | inl e ↦
        ground (arith, lookup-insert id id (opened f now new_jar) f.sessions, eq_bytes_refl id)
    | inr (state, e) ↦
        ground (arith, lookup-insert id id (refreshed f now state) f.sessions, eq_bytes_refl id)
  ]

  -- A session in use is in the table.
  session-lookup :
      (new_jar : Jar) (now : Time) (id : Bytes) (f g : Fetcher Jar) (jar : Jar)
      → Distinct f.sessions
      → session new_jar now id f ≡ (g, ok jar)
      → lookup id g.sessions ≡ some (after_use f now new_jar (seen f now id))
  unfolding session purge_expired_sessions
  session-lookup new_jar now id f g jar v h =
      rw (sym (lookup-purge expires now f.sessions id v))
        (open-lookup new_jar now id (purge_expired_sessions now f) g jar (ground arith))

  -- A change of the same session at a later time takes the place of the first.
  touch-after :
      (now later : Time) (id : Bytes) (state : SessionState Jar) (f g : Fetcher Jar)
      → id ≢ []
      → g.config ≡ f.config
      → lookup id g.sessions ≡ some state
      → Changes now id (some state) f g
      → Changes now id (some (refreshed f later state)) f (touch_session later id g)
  unfolding touch_session
  touch-after now later id state f g ne e here c at j h =
      let named : eq_bytes id [] ≡ false = ground (arith, eq_bytes_iff id []) in
      let same : refreshed g later state ≡ refreshed f later state =
        ap (λ x. record state { last_used = later; expires_at = deadline later x.session_ttl }) e in
      rw (named, here)
        (live-insert expires at id j (refreshed g later state) g.sessions
          ∙ rw (same, c at j h) (ground arith))

  Changes-same :
      (now : Time) (id : Bytes) (change : Option (SessionState Jar)) (f g h : Fetcher Jar)
      → h.sessions ≡ g.sessions
      → Changes now id change f g
      → Changes now id change f h
  Changes-same now id change f g h e c at j soon = ap (λ t. live expires at t j) e ∙ c at j soon

module _ {Jar : Type 0} (w : World Jar) where
  -- What `Do` leaves of the sessions once it has touched the one in use.
  finish-sessions :
      (f g : Fetcher Jar) (input : Input) (out : Output) (ran : Ran w input f g out)
      → g.sessions ≡ (touched w ran.jar input.session_id ran.state).sessions
  finish-sessions f g input out ran =
      let r = ran.received in
      elim (finish-Finished w input ran.state ran.prepared ran.jar r g out ran.finished) [
        | inr (_, same, _) ↦ ap (λ x. x.sessions) same
        | inl (_, (id, q, _)) ↦
            (store_response-SameSessions w.random w.store_time r.body (metadata_of w ran.prepared r)
              (touched w ran.jar input.session_id ran.state) q).0
      ]

  -- The session after a request that names it.
  abbrev pub session_after : Fetcher Jar → Bytes → SessionState Jar
  session_after f id =
      refreshed f w.touch_time (after_use f w.session_time w.new_jar (seen f w.session_time id))

  -- Where a request succeeds that names a session, in a table without duplicates, a client sees the session
  -- from then on until it expires: with the jar that was seen under the identifier, or a new one, its
  -- last use and its deadline counted from the end of the request. No other identifier shows a
  -- change.
  pub do_fetch-Keeps :
      (f g : Fetcher Jar) (input : Input) (out : Output)
      → Distinct f.sessions
      → input.session_id ≢ []
      → do_fetch w f input ≡ some (g, ok out)
      → Changes w.session_time input.session_id (some (session_after f input.session_id)) f g
  do_fetch-Keeps f g input out v ne h =
      let ran = do_fetch-Ran w input f g out h in
      let id = input.session_id in
      let (j, e, q) = ran.joined (ground (arith, eq_bytes_iff id [])) in
      let here = session-lookup w.new_jar w.session_time id f ran.state j v q in
      let used =
        subst (Used w.new_jar w.session_time id f) q
          (session-Used w.session_time f v w.new_jar id) in
      let last =
        touch-after w.session_time w.touch_time id
          (after_use f w.session_time w.new_jar (seen f w.session_time id)) f ran.state ne
          ran.same.0 here used.1 in
      Changes-same w.session_time id (some (session_after f id)) f
        (touch_session w.touch_time id ran.state) g
        (finish-sessions f g input out ran ∙ ap (λ o. (touched w o id ran.state).sessions) e) last
