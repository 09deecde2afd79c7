-- ===== src/Server/Sound.antt =====
-- The life of the server of cmd/tls-fetch-mcp/main.go.
use tls_fetch_mcp.Common.{
  All, Bool-cases, List, Option, [], ap, arith, inl, inr, length, pos, refl, some, subst, suc, sym,
  two_63, ℕ, ◌+ℤ◌, ◌<ℤ◌, ◌∙◌, ◌∷◌, ◌≡◌,
}
use tls_fetch_mcp.Text.{Bytes, eq_bytes}
use tls_fetch_mcp.Text.Space.{trim_space}
use tls_fetch_mcp.Text.Case.{Unicode, to_upper}
use tls_fetch_mcp.Errors.{Result, Calm, ok, err, get_only, method_required, use_get, Result-cases}
use tls_fetch_mcp.Config.{Config, with_defaults}
use tls_fetch_mcp.Config.Env.{config_from_env}
use tls_fetch_mcp.Config.Bounds.{IsValid, config_from_env-IsValid}
use tls_fetch_mcp.Fetcher.{Fetcher, new_fetcher}
use tls_fetch_mcp.Session.{validate_session_id, session_info, clear_session}
use tls_fetch_mcp.Session.Valid.{clear_session-IsValid, session_info-IsValid}
use tls_fetch_mcp.Response.{response}
use tls_fetch_mcp.Response.Valid.{response-IsValid}
use tls_fetch_mcp.Response.Read.{read_response}
use tls_fetch_mcp.Response.Search.{search_response}
use tls_fetch_mcp.Response.Search.Ends.{search_response_ends}
use tls_fetch_mcp.Extract.{extract_response}
use tls_fetch_mcp.Server.Panics.Checks.{session_info-Calm, clear_session-Calm}
use tls_fetch_mcp.Server.Panics.Requests.{
  do_fetch-Calm, do_get-Calm, do_request-Calm, warmup_session-Calm,
}
use tls_fetch_mcp.Server.Panics.Reads.{read_response-Calm}
use tls_fetch_mcp.Server.Panics.Extraction.{extract_response-Calm}
use tls_fetch_mcp.Extract.Ends.{extract_response_ends}
use tls_fetch_mcp.History.Runs.{new-IsSound}
use tls_fetch_mcp.History.Frame.{
  IsSound, by_sessions, by_responses, clear_session-SameResponses, session_info-SameResponses,
  response-SameSessions,
}
use tls_fetch_mcp.Request.Exchange.{Input, World}
use tls_fetch_mcp.Request.Send.{chosen_method, do_fetch}
use tls_fetch_mcp.Request.Send.Guards.{do_fetch-IsSound}
use tls_fetch_mcp.Clock.{Time}
use tls_fetch_mcp.Tools.{
  GetInput, SessionWarmupInput, get_request, reads_only, do_get, do_request, warmup_session,
}
use tls_fetch_mcp.Server.{
  Request, call_get, call_request, call_fetch, call_profiles, call_session_warmup,
  call_session_info, call_session_clear, call_response_read, call_response_extract,
  call_response_search, Answer, fetched, described, read_part, extracted, searched, clear_answer,
  Ending, returns, ended, Life, lives, Outside, answered, followed_by, handle, serve, start,
}

-- A read does not wrap around: its offset and the server's limit together fit an `int64`.
abbrev pub Fits : Config → Request → Type 0
Fits config (call_response_read input) = input.offset +ℤ config.max_read_bytes <ℤ pos two_63
Fits config request = Unit

ended-Calm :
    {A : Type 0} (f : Result A → Answer) (r : Result A) → Calm r → ended f r ≡ returns (f r)
ended-Calm f (ok a) h = refl
ended-Calm f (err e) h = rw h refl

module _ {Jar : Type 0} (config : Config) where
  -- The call ends, in a sound state.
  abbrev pub Ends : {A : Type 0} → Option (Fetcher Jar × A) → Type 0
  Ends {A = A} o = (g : Fetcher Jar) × (a : A) × (o ≡ some (g, a)) × IsSound config g

  -- The call ends with an answer, in a sound state.
  abbrev pub Answers : Option (Fetcher Jar × Ending) → Type 0
  Answers o = (g : Fetcher Jar) × (a : Answer) × (o ≡ some (g, returns a)) × IsSound config g

  Ends-answered :
      {A : Type 0} (f : Result A → Answer) (o : Option (Fetcher Jar × Result A))
      → ((g : Fetcher Jar) (r : Result A) → o ≡ some (g, r) → Calm r)
      → Ends o
      → Answers (answered f o)
  Ends-answered f o calm (g, r, e, s) =
      (g, f r, ap (answered f) e ∙ ap (λ x. some (g, x)) (ended-Calm f r (calm g r e)), s)

  -- A look-up in the responses leaves a sound state.
  after_response :
      (now : Time) (id : Bytes) (f : Fetcher Jar)
      → IsSound config f
      → IsSound config (response now id f).0
  after_response now id f s =
      by_responses config f (response now id f).0 s (response-IsValid now id f s.responses)
        (response-SameSessions now id f)

  module _ (w : World Jar) (f : Fetcher Jar) (s : IsSound config f) where
    do_get-Ends : (input : GetInput) → Ends (do_get w f input)
    unfolding do_get
    do_get-Ends input = elim (Bool-cases (reads_only (chosen_method w input.method))) [
      | inl e ↦
          rw (e, do_get)
            (do_fetch-IsSound w config f (get_request input (chosen_method w input.method)) s)
      | inr e ↦ rw (e, do_get) (f, err (get_only (chosen_method w input.method)), refl, s)
    ]

    do_request-Ends : (input : Input) → Ends (do_request w f input)
    unfolding do_request
    do_request-Ends input =
        let method = to_upper w.unicode (trim_space input.method) in
        elim (Bool-cases (eq_bytes method [])) [
          | inl e ↦ rw (e, do_request) (f, err method_required, refl, s)
          | inr e ↦ elim (Bool-cases (reads_only method)) [
            | inl r ↦ rw (e, do_request) (rw (r, do_request) (f, err (use_get method), refl, s))
            | inr r ↦
                rw (e, do_request)
                  (rw (r, do_request)
                    (do_fetch-IsSound w config f (record input { method = method }) s))
          ]
        ]

    warmup_session-Ends : (input : SessionWarmupInput) → Ends (warmup_session w f input)
    unfolding warmup_session
    warmup_session-Ends input = elim (Result-cases (validate_session_id input.session_id)) [
      | inr (e, q) ↦ rw (q, warmup_session) (f, err e, refl, s)
      | inl (t, q) ↦ rw (q, warmup_session) (do_get-Ends _)
    ]

    session_info-Ends :
        (format_time : Time → Bytes) (now : Time) (session_id : Bytes)
        → IsSound config (session_info format_time w.all_cookies now session_id f).0
    session_info-Ends format_time now session_id =
        by_sessions config f (session_info format_time w.all_cookies now session_id f).0 s
          (session_info-IsValid format_time w.all_cookies now session_id f s.sessions)
          (session_info-SameResponses format_time w.all_cookies now session_id f)

    clear_session-Ends :
        (now : Time) (session_id : Bytes) → IsSound config (clear_session now session_id f).0
    clear_session-Ends now session_id =
        by_sessions config f (clear_session now session_id f).0 s
          (clear_session-IsValid now session_id f s.sessions)
          (clear_session-SameResponses now session_id f)

  -- All calls have been answered.
  abbrev pub AllEnd : ℕ → Life Jar → Type 0
  AllEnd n life =
      (g : Fetcher Jar) × (answers : List Answer) × (life ≡ lives g answers)
      × (length answers ≡ n)
      × IsSound config g

  module _ (v : pos 0 <ℤ config.max_response_bytes) where
    positive : (f : Fetcher Jar) → IsSound config f → pos 0 <ℤ f.config.max_response_bytes
    positive f s = subst (λ c. pos 0 <ℤ c.max_response_bytes) (sym s.configured) v

    module _ {Value : Type 0} (o : Outside Jar Value) (f : Fetcher Jar) (s : IsSound config f) where
      -- A call that only looks up a response.
      looked_up :
          {A : Type 0} (answer : Result A → Answer) (id : Bytes)
          (run : Option (Fetcher Jar × Result A)) (r : Result A)
          → run ≡ some ((response o.now id f).0, r)
          → Calm r
          → Answers (answered answer run)
      looked_up answer id run r e calm = (
        (response o.now id f).0,
        answer r,
        ap (answered answer) e
            ∙ ap (λ x. some ((response o.now id f).0, x)) (ended-Calm answer r calm),
        after_response o.now id f s,
      )

      handle-Answers : (request : Request) → Fits config request → Answers (handle o request f)
      unfolding handle read_response
      handle-Answers (call_get input) t =
          Ends-answered fetched (do_get o.world f input)
            (λ g r. do_get-Calm o.world f g input r (positive f s)) (do_get-Ends o.world f s input)
      handle-Answers (call_request input) t =
          Ends-answered fetched (do_request o.world f input)
            (λ g r. do_request-Calm o.world f g input r (positive f s))
            (do_request-Ends o.world f s input)
      handle-Answers (call_fetch input) t =
          Ends-answered fetched (do_fetch o.world f input)
            (λ g r. do_fetch-Calm o.world f g input r (positive f s))
            (do_fetch-IsSound o.world config f input s)
      handle-Answers call_profiles t = (f, _, refl, s)
      handle-Answers (call_session_warmup input) t =
          Ends-answered fetched (warmup_session o.world f input)
            (λ g r. warmup_session-Calm o.world f g input r (positive f s))
            (warmup_session-Ends o.world f s input)
      handle-Answers (call_session_info session_id) t =
          let run = session_info o.format_time o.world.all_cookies o.now session_id f in
          (
            run.0,
            described run.1,
            ap (λ x. some (run.0, x))
                (ended-Calm described run.1
                  (session_info-Calm o.format_time o.world.all_cookies o.now session_id f)),
            session_info-Ends o.world f s o.format_time o.now session_id,
          )
      handle-Answers (call_session_clear session_id) t =
          let run = clear_session o.now session_id f in
          (
            run.0,
            clear_answer session_id run.1,
            ap (λ x. some (run.0, x))
                (ended-Calm (clear_answer session_id) run.1
                  (clear_session-Calm o.now session_id f)),
            clear_session-Ends o.world f s o.now session_id,
          )
      handle-Answers (call_response_read input) t =
          looked_up read_part input.response_id (some (read_response o.format_time o.now input f))
            (read_response o.format_time o.now input f).1 refl
            (read_response-Calm o.format_time o.now input f
              (subst (λ c. input.offset +ℤ c.max_read_bytes <ℤ pos two_63) (sym s.configured) t))
      handle-Answers (call_response_extract input) t =
          let (r, e) = extract_response_ends o.parsers o.now input f in
          looked_up extracted input.response_id (extract_response o.parsers o.now input f) r e (
            extract_response-Calm o.parsers o.now input f (response o.now input.response_id f).0 r
              e)
      handle-Answers (call_response_search input) t =
          let (r, e, calm) = search_response_ends o.now input f in
          looked_up searched input.response_id (search_response o.now input f) r e calm

    -- The calls end, each with an answer, and the server lives, in a sound state.
    serve-AllEnd :
        {Value : Type 0} (calls : List (Outside Jar Value × Request)) (f : Fetcher Jar)
        → IsSound config f
        → All (λ call. Fits config call.1) calls
        → AllEnd (length calls) (serve calls f)
    unfolding serve
    serve-AllEnd [] f s t = (f, [], refl, refl, s)
    serve-AllEnd ((o, request) ∷ calls) f s t =
        let (g, a, e, s') = handle-Answers o f s request t.0 in
        let (h, answers, q, n, s'') = serve-AllEnd calls g s' t.1 in
        (h, a ∷ answers, rw (e, serve) (ap (followed_by a) q), ap suc n, s'')

-- What is shown of a server with this state at its start.
abbrev pub Serves : {Jar Value : Type 0} → Fetcher Jar → List (Outside Jar Value × Request) → Type 0
Serves f calls =
    IsValid f.config
    × (All (λ call. Fits f.config call.1) calls → AllEnd f.config (length calls) (serve calls f))

started :
    {Jar Value : Type 0} (config : Config) (calls : List (Outside Jar Value × Request))
    → IsValid (with_defaults config)
    → Serves (new_fetcher {Jar = Jar} config) calls
unfolding new_fetcher
started config calls v = (
  v,
  serve-AllEnd (with_defaults config) v.positive.response_bytes.0 calls (new_fetcher config)
      (new-IsSound config v.positive),
)

-- A server that starts, whatever its environment, has positive limits; and whatever tools are called, in
-- whatever order and with whatever arguments, answers of the network, readings of the clock and failures
-- of `rand.Read`, but that the offset of each read and the server's limit for reads have a sum below
-- 2 ^ 63, each call ends without a run-time panic and gets its answer. In the state behind all of them no
-- identifier occurs twice, each session has a valid identifier, neither table holds more than its limit,
-- and the configuration is that of the start.
pub start-AllEnd :
    {Jar Value : Type 0} (u : Unicode) (getenv : Bytes → Bytes) (f : Fetcher Jar)
    (calls : List (Outside Jar Value × Request))
    → start u getenv ≡ ok f
    → All (λ call. Fits f.config call.1) calls
    → IsValid f.config × AllEnd f.config (length calls) (serve calls f)
unfolding start
start-AllEnd {Jar} {Value} u getenv f calls h fits =
    elim (Result-cases (config_from_env u getenv)) [
      | inr (e, q) ↦ absurd (ground arith)
      | inl (config, q) ↦
          let (valid, same) = config_from_env-IsValid u getenv config q in
          let fresh : new_fetcher config ≡ f = ground arith in
          let (v, serves) =
            subst (λ f. Serves f calls) fresh
              (started config calls (subst IsValid (sym same) valid)) in
          (v, serves fits)
    ]
