-- ===== src/Request/Send/Guards.antt =====
-- The checks of Do of internal/fetch/fetch.go, and its effect on the tables.
use tls_fetch_mcp.Common.{
  Bool-cases, List, Option, [], ap, arith, inl, inr, length, map, none, refl, some, true, ℕ, ◌+◌,
  ◌∙◌, ◌∷◌, ◌≡◌, ◌≤◌,
}
use mathlib.Core.Option
use mathlib.Core.Path.{subst}
use tls_fetch_mcp.Text.{Bytes, eq_bytes}
use tls_fetch_mcp.Errors.{Result, ok, err, Result-cases}
use tls_fetch_mcp.Config.{Config}
use tls_fetch_mcp.Fetcher.{Fetcher}
use tls_fetch_mcp.Policy.{Policy, Url, validate_url, validate_parsed_url}
use tls_fetch_mcp.Policy.Urls.{IsSafe, validate_url-IsSafe, validate_parsed_url_iff}
use tls_fetch_mcp.Session.{session}
use tls_fetch_mcp.Session.Valid.{session-IsValid, touch_session-IsValid}
use tls_fetch_mcp.Response.Valid.{store_response-IsValid}
use tls_fetch_mcp.History.Frame.{
  IsSound, by_sessions, by_responses, session-SameResponses, touch_session-SameResponses,
  store_response-SameSessions,
}
use tls_fetch_mcp.Request.{timeout, response_limit}
use tls_fetch_mcp.Request.Exchange.{Input, Output, World, Prepared, Received}
use tls_fetch_mcp.Request.Send.{
  is_allowed_method, follow_from, prepare, exchange, finish, send_prepared, do_fetch, touched,
  stored_output, metadata_of, in_session, output,
}

module _ {Jar : Type 0} (w : World Jar) (config : Config) where
  touched-IsSound :
      (jar : Option Jar) (session_id : Bytes) (f : Fetcher Jar)
      → IsSound config f
      → IsSound config (touched w jar session_id f)
  touched-IsSound none session_id f s = s
  touched-IsSound (some jar) session_id f s =
      by_sessions config f _ s (touch_session-IsValid w.touch_time session_id f s.sessions)
        (touch_session-SameResponses w.touch_time session_id f)

  -- The call ends, in a sound state.
  abbrev Ends : Option (Fetcher Jar × Result Output) → Type 0
  Ends o = (g : Fetcher Jar) × (out : Result Output) × (o ≡ some (g, out)) × IsSound config g

  finish-IsSound :
      (f : Fetcher Jar) (input : Input) (p : Prepared) (jar : Option Jar) (r : Received)
      → IsSound config f
      → Ends (finish w f input p jar r)
  unfolding finish
  finish-IsSound f input p jar r s =
      let s' = touched-IsSound jar input.session_id f s in
      elim (Bool-cases input.store_response) [
        | inr skip ↦
            (touched w jar input.session_id f, ok (output w input p jar r []), rw skip refl, s')
        | inl keep ↦
            let (g, result, e, v) =
              store_response-IsValid w.random w.store_time r.body (metadata_of w p r)
                (touched w jar input.session_id f) s'.responses in
            (
              g,
              (stored_output w input p jar r (g, result)).1,
              rw keep (ap (Option.map (stored_output w input p jar r)) e),
              by_responses config (touched w jar input.session_id f) g s' v (
                  store_response-SameSessions w.random w.store_time r.body (metadata_of w p r)
                    (touched w jar input.session_id f) e),
            )
      ]

  send_prepared-IsSound :
      (f : Fetcher Jar) (input : Input) (p : Prepared) (jar : Option Jar)
      → IsSound config f
      → Ends (send_prepared w f input p jar)
  unfolding send_prepared
  send_prepared-IsSound f input p jar s = elim (Result-cases (exchange w f input p jar)) [
    | inr (e, q) ↦ (f, err e, rw (q, send_prepared) refl, s)
    | inl (r, q) ↦
        let (g, out, e, v) = finish-IsSound f input p jar r s in
        (g, out, rw (q, send_prepared) e, v)
  ]

  in_session-IsSound :
      (input : Input) (p : Prepared) (opened : Fetcher Jar × Result Jar)
      → IsSound config opened.0
      → Ends (in_session w input p opened)
  in_session-IsSound input p (g, err e) s = (g, err e, refl, s)
  in_session-IsSound input p (g, ok jar) s = send_prepared-IsSound g input p (some jar) s

  -- Whatever the request, the servers' answers and the readings of the clock, `Do` from a sound state ends,
  -- with an output or an error, in a sound state: the invariants of both tables hold and the
  -- configuration is unchanged.
  pub do_fetch-IsSound :
      (f : Fetcher Jar) (input : Input) → IsSound config f → Ends (do_fetch w f input)
  unfolding do_fetch
  do_fetch-IsSound f input s = elim (Result-cases (prepare w f input)) [
    | inr (e, q) ↦ (f, err e, rw (q, do_fetch) refl, s)
    | inl (p, q) ↦ elim (Bool-cases (eq_bytes input.session_id [])) [
      | inl anonymous ↦
          let (g, out, e, v) = send_prepared-IsSound f input p none s in
          (g, out, rw (q, do_fetch) (rw anonymous e), v)
      | inr named ↦
          let opened = session w.new_jar w.session_time input.session_id f in
          let (g, out, e, v) = in_session-IsSound input p opened (
            by_sessions config f opened.0 s
              (session-IsValid w.new_jar w.session_time input.session_id f s.sessions)
              (session-SameResponses w.new_jar w.session_time input.session_id f)) in
          (g, out, rw (q, do_fetch) (rw named e), v)
    ]
  ]

module _ {Jar : Type 0} (w : World Jar) where
  -- A request that passes the checks before any state is touched or traffic caused has a safe URL, a
  -- method and a profile that are supported, and a timeout and a limit that are accepted.
  pub prepare-IsSafe :
      (f : Fetcher Jar) (input : Input) (p : Prepared)
      → prepare w f input ≡ ok p
      → (w.parse_url input.url ≡ some p.parsed)
        × IsSafe w.unicode f.policy w.url_resolver p.parsed
        × (is_allowed_method p.method ≡ true)
        × (w.is_profile p.profile ≡ true)
        × (timeout f.config input.timeout_seconds ≡ ok p.timeout)
        × (response_limit f.config input.max_response_bytes ≡ ok p.response_limit)
  unfolding prepare
  prepare-IsSafe f input p h =
      elim (Result-cases (validate_url w.unicode f.policy w.url_resolver w.parse_url input.url)) [
        | inr (e, q) ↦ absurd (ground arith)
        | inl (parsed, q) ↦ elim (Result-cases (timeout f.config input.timeout_seconds)) [
          | inr (e, a) ↦ absurd (ground arith)
          | inl (t, a) ↦ elim (Result-cases (response_limit f.config input.max_response_bytes)) [
            | inr (e, b) ↦ absurd (ground arith)
            | inl (n, b) ↦
                let url : parsed ≡ p.parsed = ground arith in
                let (named, safe) =
                  validate_url-IsSafe w.unicode f.policy w.url_resolver w.parse_url input.url parsed
                    q in
                (
                  named ∙ ap some url,
                  subst (IsSafe w.unicode f.policy w.url_resolver) url safe,
                  ground arith,
                  ground arith,
                  ground arith,
                  ground arith,
                )
          ]
        ]
      ]

  -- Each URL is safe by what the resolver answers behind so many requests.
  abbrev pub AllSafe : Policy → ℕ → List Url → Type 0
  AllSafe p via [] = Unit
  AllSafe p via (url ∷ urls) =
      IsSafe w.unicode p (w.redirect_resolver via) url × AllSafe p (via + 1) urls

  -- If the client's redirects are admitted, behind a given number of requests that is at most ten, each of
  -- their URLs is safe when it is followed, at most ten requests are made, and the history lists the URLs.
  pub follow_from-AllSafe :
      (p : Policy) (via : ℕ) (urls : List Url) (history : List Bytes)
      → via ≤ 10
      → follow_from w p via urls ≡ ok history
      → AllSafe p via urls × (via + length urls ≤ 10) × (history ≡ map (λ url. url.text) urls)
  unfolding follow_from
  follow_from-AllSafe p via [] history b h = (tt, omega arith, ground arith)
  follow_from-AllSafe p via (url ∷ urls) history b h =
      elim (Result-cases (validate_parsed_url w.unicode p (w.redirect_resolver via) url)) [
        | inr (e, q) ↦ absurd (ground arith)
        | inl (t, q) ↦ elim (Result-cases (follow_from w p (via + 1) urls)) [
          | inr (e, r) ↦ absurd (ground arith)
          | inl (rest, r) ↦
              let (safe, few, same) = follow_from-AllSafe p (via + 1) urls rest (ground arith) r in
              (
                ((validate_parsed_url_iff w.unicode p (w.redirect_resolver via) url).0 q, safe),
                omega arith,
                ground arith,
              )
        ]
      ]
