-- ===== src/Tools/Warmup.antt =====
-- WarmupSession of internal/fetch/tools.go and the session that it leaves.
use tls_fetch_mcp.Common.{[], ap, arith, false, inl, inr, refl, some, sym, ◌∙◌, ◌≡◌}
use tls_fetch_mcp.Text.{ascii, eq_bytes}
use tls_fetch_mcp.Errors.{ok, Result-cases}
use tls_fetch_mcp.Table.{Distinct}
use tls_fetch_mcp.Fetcher.{Fetcher}
use tls_fetch_mcp.Session.{validate_session_id}
use tls_fetch_mcp.Session.Ids.{validate_session_id_iff}
use tls_fetch_mcp.Session.Live.{Changes}
use tls_fetch_mcp.Request.Exchange.{Input, Output, World}
use tls_fetch_mcp.Request.Send.{chosen_method, do_fetch}
use tls_fetch_mcp.Request.Send.Steps.{do_fetch-Ran}
use tls_fetch_mcp.Request.Send.Parts.{finish-Finished}
use tls_fetch_mcp.Request.Send.Readable.{touched-SameResponses}
use tls_fetch_mcp.Request.Send.Kept.{session_after, do_fetch-Keeps}
use tls_fetch_mcp.Tools.{SessionWarmupInput, do_get, warmup_session}

-- The request that `Do` gets.
abbrev pub warmup_request : SessionWarmupInput → Input
warmup_request input = record {
  url = input.url;
  method = ascii "GET";
  headers = input.headers;
  header_order = input.header_order;
  body = [];
  profile = input.profile;
  follow_redirects = input.follow_redirects;
  timeout_seconds = input.timeout_seconds;
  max_response_bytes = input.max_response_bytes;
  proxy_url = input.proxy_url;
  session_id = input.session_id;
  include_body = some false;
  store_response = false;
}

module _ {Jar : Type 0} (w : World Jar) where
  pub warmup_session-accepted :
      (f : Fetcher Jar) (input : SessionWarmupInput)
      → validate_session_id input.session_id ≡ ok tt
      → warmup_session w f input ≡ do_fetch w f (warmup_request input)
  unfolding warmup_session do_get chosen_method eq_bytes
  warmup_session-accepted f input e = rw (e, warmup_session) refl

  -- A request whose response is not to be stored leaves the responses, and one whose body is not to be
  -- included puts none out.
  do_fetch-quiet :
      (f g : Fetcher Jar) (input : SessionWarmupInput) (out : Output)
      → do_fetch w f (warmup_request input) ≡ some (g, ok out)
      → (g.responses ≡ f.responses) × (out.body ≡ []) × (out.response_id ≡ [])
  do_fetch-quiet f g input out h =
      let request = warmup_request input in
      let ran = do_fetch-Ran w request f g out h in
      elim (finish-Finished w request ran.state ran.prepared ran.jar ran.received g out
        ran.finished) [
          | inl (store, _) ↦ absurd (ground arith)
          | inr (_, same, shown) ↦ (
            ap (λ x. x.responses) same
                ∙ (touched-SameResponses w ran.jar request.session_id ran.state).0
                ∙ ran.same.2,
            ap (λ o. o.body) shown,
            ap (λ o. o.response_id) shown,
          )
        ]

  -- What a warm-up that succeeds has done.
  abbrev pub Warmed : Fetcher Jar → SessionWarmupInput → Fetcher Jar → Output → Type 0
  Warmed f input g out =
      Changes w.session_time input.session_id (some (session_after w f input.session_id)) f g
      × (g.responses ≡ f.responses)
      × (out.body ≡ [])
      × (out.response_id ≡ [])

  -- Where a warm-up succeeds, in a table of sessions without duplicates, its identifier is accepted, and a
  -- client sees the session from then on until it expires: with the jar that was seen under the
  -- identifier, or a new one, its last use and its deadline counted from the end of the request. No
  -- other identifier shows a change, the stored responses are as before, and the output has neither a
  -- body nor the identifier of a response.
  pub warmup_session-Warmed :
      (f g : Fetcher Jar) (input : SessionWarmupInput) (out : Output)
      → Distinct f.sessions
      → warmup_session w f input ≡ some (g, ok out)
      → (validate_session_id input.session_id ≡ ok tt) × Warmed f input g out
  unfolding warmup_session
  warmup_session-Warmed f g input out v h =
      elim (Result-cases (validate_session_id input.session_id)) [
        | inr (x, e) ↦ absurd (ground arith)
        | inl (_, e) ↦
            let run = sym (warmup_session-accepted f input e) ∙ h in
            let ne = ((validate_session_id_iff input.session_id).0 e).0 in
            let (stored, body, id) = do_fetch-quiet f g input out run in
            (e, (do_fetch-Keeps w f g (warmup_request input) out v ne run, stored, body, id))
      ]
