-- ===== src/Server/Panics/Requests.antt =====
-- Do of internal/fetch/fetch.go and the entry points of tools.go.
use tls_fetch_mcp.Common.{
  Bool-cases, Option, Option-cases, [], arith, false, inl, inr, none, pos, refl, some, subst, sym,
  ◌<ℤ◌, ◌∙◌, ◌≡◌,
}
use tls_fetch_mcp.Text.{Bytes, eq_bytes}
use tls_fetch_mcp.Errors.{
  Error, Result, ok, err, is_panic, Result-cases, Calm, Calm-bind, Calm-then, Calm-fail_if,
  Calm-wrap, Calm-or_fail, Calm-err, invalid_proxy,
}
use tls_fetch_mcp.Fetcher.{Fetcher}
use tls_fetch_mcp.Policy.{validate_proxy_url}
use tls_fetch_mcp.Session.{validate_session_id, session}
use tls_fetch_mcp.Response.{store_response}
use tls_fetch_mcp.Text.Case.{to_upper}
use tls_fetch_mcp.Text.Space.{trim_space}
use tls_fetch_mcp.Tools.{
  GetInput, RequestInput, SessionWarmupInput, get_request, reads_only, do_get, do_request,
  warmup_session,
}
use tls_fetch_mcp.Tools.Warmup.{warmup_request, warmup_session-accepted}
use tls_fetch_mcp.Request.Limits.{response_limit-IsWithin}
use tls_fetch_mcp.Request.Send.Guards.{prepare-IsSafe}
use tls_fetch_mcp.Request.Exchange.{Input, Output, World, Prepared, Received}
use tls_fetch_mcp.Request.Send.{
  chosen_method, prepare, check_proxy, exchange, finish, send_prepared, in_session, do_fetch,
  touched, metadata_of,
}
use tls_fetch_mcp.Server.Panics.Checks.{
  validate_url-Calm, timeout-Calm, response_limit-Calm, validate_session_id-Calm, set_headers-Calm,
  read_body-Calm, session-Calm, store_response-Calm,
}

module _ {Jar : Type 0} (w : World Jar) where
  prepare-Calm : (f : Fetcher Jar) (input : Input) → Calm (prepare w f input)
  unfolding prepare
  prepare-Calm f input =
      search
        (
          Calm-then, Calm-bind, Calm-fail_if, validate_url-Calm, timeout-Calm, response_limit-Calm,
          refl, arith,
        )
        depth 16

  check_proxy-Calm : (f : Fetcher Jar) (proxy_url : Bytes) → Calm (check_proxy w f proxy_url)
  unfolding check_proxy
  check_proxy-Calm f proxy_url = ground (
    arith,
    Calm-wrap invalid_proxy
        (validate_proxy_url w.unicode f.policy w.proxy_resolver w.parse_url proxy_url) (λ e. refl),
  )

  exchange-Calm :
      (f : Fetcher Jar) (input : Input) (p : Prepared) (jar : Option Jar)
      → pos 0 <ℤ p.response_limit
      → Calm (exchange w f input p jar)
  unfolding exchange
  exchange-Calm f input p jar h =
      search
        (
          Calm-then, Calm-bind, Calm-fail_if, Calm-or_fail, Calm-wrap, check_proxy-Calm,
          set_headers-Calm, read_body-Calm, arith,
        )
        depth 20

  finish-Calm :
      (f g : Fetcher Jar) (input : Input) (p : Prepared) (jar : Option Jar) (received : Received)
      (r : Result Output)
      → finish w f input p jar received ≡ some (g, r)
      → Calm r
  unfolding finish
  finish-Calm f g input p jar received (ok out) h = tt
  finish-Calm f g input p jar received (err e) h =
      let state = touched w jar input.session_id f in
      let storing =
        store_response w.random w.store_time received.body (metadata_of w p received) state in
      elim (Bool-cases input.store_response) [
        | inr skip ↦ absurd (ground arith)
        | inl keep ↦ elim (Option-cases storing) [
          | inl a ↦ absurd (ground arith)
          | inr ((g', ok id), a) ↦ absurd (ground arith)
          | inr ((g', err x), a) ↦
              let same : x ≡ e = ground arith in
              subst (λ e. is_panic e ≡ false) same
                (store_response-Calm w.random w.store_time received.body (metadata_of w p received)
                  state g' (err x) a)
        ]
      ]

  send_prepared-Calm :
      (f g : Fetcher Jar) (input : Input) (p : Prepared) (jar : Option Jar) (r : Result Output)
      → pos 0 <ℤ p.response_limit
      → send_prepared w f input p jar ≡ some (g, r)
      → Calm r
  unfolding send_prepared
  send_prepared-Calm f g input p jar (ok out) v h = tt
  send_prepared-Calm f g input p jar (err e) v h = elim (Result-cases (exchange w f input p jar)) [
    | inr (x, q) ↦
        let same : x ≡ e = ground arith in
        subst (λ e. is_panic e ≡ false) same
          (Calm-err (exchange w f input p jar) x (exchange-Calm f input p jar v) q)
    | inl (received, q) ↦ finish-Calm f g input p jar received (err e) (rw (q, send_prepared) at h)
  ]

  in_session-Calm :
      (g : Fetcher Jar) (input : Input) (p : Prepared) (opened : Fetcher Jar × Result Jar)
      (r : Result Output)
      → pos 0 <ℤ p.response_limit
      → Calm opened.1
      → in_session w input p opened ≡ some (g, r)
      → Calm r
  in_session-Calm g input p (state, err x) (ok out) v c h = tt
  in_session-Calm g input p (state, err x) (err e) v c h = ground arith
  in_session-Calm g input p (state, ok jar) r v c h =
      send_prepared-Calm state g input p (some jar) r v h

  -- Where the limit on the bytes of a response is positive, `Do` does not panic.
  pub do_fetch-Calm :
      (f g : Fetcher Jar) (input : Input) (r : Result Output)
      → pos 0 <ℤ f.config.max_response_bytes
      → do_fetch w f input ≡ some (g, r)
      → Calm r
  unfolding do_fetch
  do_fetch-Calm f g input (ok out) v h = tt
  do_fetch-Calm f g input (err e) v h = elim (Result-cases (prepare w f input)) [
    | inr (x, q) ↦
        let same : x ≡ e = ground arith in
        subst (λ e. is_panic e ≡ false) same
          (Calm-err (prepare w f input) x (prepare-Calm f input) q)
    | inl (p, q) ↦
        let (_, _, _, _, _, n) = prepare-IsSafe w f input p q in
        let (positive, _) =
          response_limit-IsWithin f.config input.max_response_bytes p.response_limit v n in
        elim (Bool-cases (eq_bytes input.session_id [])) [
          | inl anonymous ↦ send_prepared-Calm f g input p none (err e) positive (ground arith)
          | inr named ↦
              in_session-Calm g input p (session w.new_jar w.session_time input.session_id f)
                (err e) positive (session-Calm w.new_jar w.session_time input.session_id f)
                (ground arith)
        ]
  ]

  pub do_get-Calm :
      (f g : Fetcher Jar) (input : GetInput) (r : Result Output)
      → pos 0 <ℤ f.config.max_response_bytes
      → do_get w f input ≡ some (g, r)
      → Calm r
  unfolding do_get
  do_get-Calm f g input (ok out) v h = tt
  do_get-Calm f g input (err e) v h =
      elim (Bool-cases (reads_only (chosen_method w input.method))) [
        | inr other ↦ ground arith
        | inl gate ↦
            do_fetch-Calm f g (get_request input (chosen_method w input.method)) (err e) v
              (rw (gate, do_get) at h)
      ]

  pub do_request-Calm :
      (f g : Fetcher Jar) (input : RequestInput) (r : Result Output)
      → pos 0 <ℤ f.config.max_response_bytes
      → do_request w f input ≡ some (g, r)
      → Calm r
  unfolding do_request
  do_request-Calm f g input (ok out) v h = tt
  do_request-Calm f g input (err e) v h =
      let method = to_upper w.unicode (trim_space input.method) in
      elim (Bool-cases (eq_bytes method [])) [
        | inl empty ↦ ground arith
        | inr named ↦ elim (Bool-cases (reads_only method)) [
          | inl reads ↦ ground arith
          | inr writes ↦
              do_fetch-Calm f g (record input { method = method }) (err e) v (ground arith)
        ]
      ]

  warmup_session-refused :
      (f g : Fetcher Jar) (input : SessionWarmupInput) (x e : Error)
      → validate_session_id input.session_id ≡ err x
      → warmup_session w f input ≡ some (g, err e)
      → is_panic e ≡ false
  unfolding warmup_session
  warmup_session-refused f g input x e q h =
      let calm =
        Calm-err (validate_session_id input.session_id) x
          (validate_session_id-Calm input.session_id) q in
      ground arith

  pub warmup_session-Calm :
      (f g : Fetcher Jar) (input : SessionWarmupInput) (r : Result Output)
      → pos 0 <ℤ f.config.max_response_bytes
      → warmup_session w f input ≡ some (g, r)
      → Calm r
  warmup_session-Calm f g input (ok out) v h = tt
  warmup_session-Calm f g input (err e) v h =
      elim (Result-cases (validate_session_id input.session_id)) [
        | inl (_, q) ↦
            do_fetch-Calm f g (warmup_request input) (err e) v
              (sym (warmup_session-accepted w f input q) ∙ h)
        | inr (x, q) ↦ warmup_session-refused f g input x e q h
      ]
