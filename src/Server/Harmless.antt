-- ===== src/Server/Harmless.antt =====
-- The tools of cmd/tls-fetch-mcp/main.go that are annotated as read-only.
use tls_fetch_mcp.Common.{Bool-cases, Option, [], ap, inl, inr, refl, some, true, ◌≡◌, ◌⊎◌}
use tls_fetch_mcp.Text.{Bytes}
use tls_fetch_mcp.Errors.{Result-cases}
use tls_fetch_mcp.Fetcher.{Fetcher}
use tls_fetch_mcp.Session.{validate_session_id, purge_expired_sessions, session_info}
use tls_fetch_mcp.Response.{bad_id, purge_expired_responses, response}
use tls_fetch_mcp.Response.Read.{read_response}
use tls_fetch_mcp.Response.Search.Ends.{search_response_ends}
use tls_fetch_mcp.Extract.Ends.{extract_response_ends}
use tls_fetch_mcp.Request.Exchange.{Input}
use tls_fetch_mcp.Request.Send.{chosen_method, do_fetch}
use tls_fetch_mcp.Tools.{reads_only}
use tls_fetch_mcp.Tools.Methods.{do_get-reads_only}
use tls_fetch_mcp.Server.{
  Request, call_get, call_request, call_fetch, call_profiles, call_session_warmup,
  call_session_info, call_session_clear, call_response_read, call_response_extract,
  call_response_search, Ending, fetched, extracted, searched, Outside, tool_of, answered, handle,
}

module _ {Jar Value : Type 0} (o : Outside Jar Value) where
  -- The state is as before, but for expired entries of one table that may be gone.
  abbrev pub OnlyForgets : Fetcher Jar → Fetcher Jar → Type 0
  OnlyForgets f g =
      (g ≡ f) ⊎ ((g ≡ purge_expired_sessions o.now f) ⊎ (g ≡ purge_expired_responses o.now f))

  -- The call ends without leaving the memory of the server.
  abbrev pub StaysInside : Fetcher Jar → Option (Fetcher Jar × Ending) → Type 0
  StaysInside f r = (g : Fetcher Jar) × (e : Ending) × (r ≡ some (g, e)) × OnlyForgets f g

  -- The call is a request with GET or HEAD and no body.
  abbrev pub OnlyReads : Fetcher Jar → Option (Fetcher Jar × Ending) → Type 0
  OnlyReads f r =
      (request : Input) × (r ≡ answered fetched (do_fetch o.world f request))
      × (reads_only (chosen_method o.world request.method) ≡ true)
      × (request.body ≡ [])

  response-OnlyForgets : (id : Bytes) (f : Fetcher Jar) → OnlyForgets f (response o.now id f).0
  unfolding response
  response-OnlyForgets id f = elim (Bool-cases (bad_id id)) [
    | inl e ↦ inl (rw (e, response) refl)
    | inr e ↦ inr (inr (rw (e, response) refl))
  ]

  session_info-OnlyForgets :
      (session_id : Bytes) (f : Fetcher Jar)
      → OnlyForgets f (session_info o.format_time o.world.all_cookies o.now session_id f).0
  unfolding session_info
  session_info-OnlyForgets session_id f = elim (Result-cases (validate_session_id session_id)) [
    | inr (e, q) ↦ inl (rw (q, session_info) refl)
    | inl (t, q) ↦ inr (inl (rw (q, session_info) refl))
  ]

  -- A tool that is annotated as read-only either ends, with an answer from memory or, as a read may, with a
  -- run-time panic, and then the state is as before but for expired entries of one table that may be gone; or it sends a request with the method GET or HEAD
  -- and no body, and then it is annotated as reaching the open world.
  pub handle-OnlyReads :
      (request : Request) (f : Fetcher Jar)
      → (tool_of request).read_only ≡ true
      → StaysInside f (handle o request f)
        ⊎ (((tool_of request).open_world ≡ some true) × OnlyReads f (handle o request f))
  unfolding handle read_response
  handle-OnlyReads (call_get input) f h = elim (do_get-reads_only o.world f input) [
    | inl e ↦ inl (f, _, ap (answered fetched) e, inl refl)
    | inr (request, e, gate, plain) ↦ inr (refl, (request, ap (answered fetched) e, gate, plain))
  ]
  handle-OnlyReads (call_request input) f h = cc
  handle-OnlyReads (call_fetch input) f h = cc
  handle-OnlyReads call_profiles f h = inl (f, _, refl, inl refl)
  handle-OnlyReads (call_session_warmup input) f h = cc
  handle-OnlyReads (call_session_info session_id) f h =
      inl (_, _, refl, session_info-OnlyForgets session_id f)
  handle-OnlyReads (call_session_clear session_id) f h = cc
  handle-OnlyReads (call_response_read input) f h =
      inl
        ((response o.now input.response_id f).0, _, refl, response-OnlyForgets input.response_id f)
  handle-OnlyReads (call_response_extract input) f h =
      let (r, e) = extract_response_ends o.parsers o.now input f in
      inl (
        (response o.now input.response_id f).0,
        _,
        ap (answered extracted) e,
        response-OnlyForgets input.response_id f,
      )
  handle-OnlyReads (call_response_search input) f h =
      let (r, e, _) = search_response_ends o.now input f in
      inl (
        (response o.now input.response_id f).0,
        _,
        ap (answered searched) e,
        response-OnlyForgets input.response_id f,
      )
