-- ===== src/Request/Send/Parts.antt =====
-- The exchange and the end of Do of internal/fetch/fetch.go, where they succeed.
use tls_fetch_mcp.Common.{
  Bool-cases, List, Option, Option-cases, [], arith, false, if◌then◌else◌, inl, inr, some, subst,
  true, ◌≡◌, ◌⊎◌,
}
use tls_fetch_mcp.Text.{Bytes}
use tls_fetch_mcp.Errors.{Error, redirect_refused, Result, ok, err, Result-cases, wrap}
use tls_fetch_mcp.Table.{Table}
use tls_fetch_mcp.Fetcher.{Fetcher}
use tls_fetch_mcp.Response.{store_response}
use tls_fetch_mcp.Request.{read_body}
use tls_fetch_mcp.Request.Headers.{set_headers}
use tls_fetch_mcp.Request.Exchange.{Sent, Input, Output, World, Prepared, Received}
use tls_fetch_mcp.Request.Send.{
  flag, check_proxy, follow_from, exchange, finish, touched, output, metadata_of,
}

module _ {Jar : Type 0} (w : World Jar) (input : Input) where
  -- What the client is asked to send.
  abbrev pub sent : Prepared → Option Jar → Table Bytes → List Bytes → Sent Jar
  sent p jar headers order = record {
    timeout = p.timeout;
    profile = p.profile;
    jar = jar;
    follow = flag input.follow_redirects;
    proxy_url = input.proxy_url;
    method = p.method;
    url = p.parsed.text;
    body = input.body;
    headers = headers;
    header_order = order;
  }

  -- The steps of an exchange that succeeds.
  pub record Exchanged (f : Fetcher Jar) (p : Prepared) (jar : Option Jar) (r : Received)
      : Type 0 where
    pub proxied : check_proxy w f input.proxy_url ≡ ok tt
    pub headers : Table Bytes × List Bytes
    pub headed :
        set_headers w.unicode w.canonical input.headers input.header_order p.profile ≡ ok headers
    -- The request that the client answered.
    pub answered : w.send (sent p jar headers.0 headers.1) ≡ some r.reply
    pub followed :
        (if flag input.follow_redirects then follow_from w f.policy 1 r.reply.redirects else ok [])
        ≡ ok r.history
    pub read : read_body p.response_limit r.reply.stream ≡ ok (r.body, r.truncated)

  wrap-ok : {A : Type 0} (f : Error → Error) (r : Result A) (a : A) → wrap f r ≡ ok a → r ≡ ok a
  wrap-ok f (ok b) a h = h
  wrap-ok f (err e) a h = cc

  pub exchange-Exchanged :
      (f : Fetcher Jar) (p : Prepared) (jar : Option Jar) (r : Received)
      → exchange w f input p jar ≡ ok r
      → Exchanged f p jar r
  unfolding exchange
  exchange-Exchanged f p jar r h = elim (Result-cases (check_proxy w f input.proxy_url)) [
    | inr (e, a) ↦ absurd (ground arith)
    | inl (_, a) ↦
        elim (Result-cases
          (set_headers w.unicode w.canonical input.headers input.header_order p.profile)) [
            | inr (e, b) ↦ absurd (ground arith)
            | inl ((headers, order), b) ↦ elim (Option-cases (w.send (sent p jar headers order))) [
              | inl c ↦ absurd (ground arith)
              | inr (reply, c) ↦
                  let redirects : Result (List Bytes) =
                    if flag input.follow_redirects
                    then follow_from w f.policy 1 reply.redirects
                    else ok [] in
                  elim (Result-cases (wrap redirect_refused redirects)) [
                    | inr (e, d) ↦ absurd (ground arith)
                    | inl (history, d) ↦
                        elim (Result-cases (read_body p.response_limit reply.stream)) [
                          | inr (e, x) ↦ absurd (ground arith)
                          | inl ((body, truncated), x) ↦
                              let shape : record {
                                reply = reply;
                                history = history;
                                body = body;
                                truncated = truncated;
                              }
                                  ≡ r =
                                ground arith in
                              subst (Exchanged f p jar) shape (record {
                                proxied = a;
                                headers = (headers, order);
                                headed = b;
                                answered = c;
                                followed = wrap-ok redirect_refused redirects history d;
                                read = x;
                              })
                        ]
                  ]
            ]
          ]
  ]

  -- How a call ends that succeeds: the response is stored under the identifier in the output, or it is
  -- not to be stored.
  abbrev pub Finished :
      Fetcher Jar → Prepared → Option Jar → Received → Fetcher Jar → Output → Type 0
  Finished f p jar r g out =
      ((input.store_response ≡ true)
        × ((id : Bytes) × (store_response w.random w.store_time r.body (metadata_of w p r)
                (touched w jar input.session_id f)
              ≡ some (g, ok id))
            × (out ≡ output w input p jar r id)))
      ⊎ ((input.store_response ≡ false)
          × (g ≡ touched w jar input.session_id f)
          × (out ≡ output w input p jar r []))

  pub finish-Finished :
      (f : Fetcher Jar) (p : Prepared) (jar : Option Jar) (r : Received) (g : Fetcher Jar)
      (out : Output)
      → finish w f input p jar r ≡ some (g, ok out)
      → Finished f p jar r g out
  unfolding finish
  finish-Finished f p jar r g out h =
      let state = touched w jar input.session_id f in
      let storing = store_response w.random w.store_time r.body (metadata_of w p r) state in
      elim (Bool-cases input.store_response) [
        | inr skip ↦ inr (skip, ground arith, ground arith)
        | inl keep ↦ elim (Option-cases storing) [
          | inl a ↦ absurd (ground arith)
          | inr ((g', err e), a) ↦ absurd (ground arith)
          | inr ((g', ok id), a) ↦
              let same : g' ≡ g = ground arith in
              inl (keep, (id, subst (λ x. storing ≡ some (x, ok id)) same a, ground arith))
        ]
      ]
