-- ===== src/Request/Send/Delivered.antt =====
-- What Do of internal/fetch/fetch.go guarantees where it succeeds.
use tls_fetch_mcp.Common.{
  All, List, [], false, if◌then◌else◌, length, map, pos, some, true, ℕ, ◌≡◌, ◌≢◌, ◌≤ℤ◌, ◌≤◌, ◌⊎◌,
}
use tls_fetch_mcp.Text.{Bytes, ascii}
use tls_fetch_mcp.Errors.{ok}
use tls_fetch_mcp.Config.{Config}
use tls_fetch_mcp.Encoding.{encode_body}
use tls_fetch_mcp.Response.Headers.{sanitize_response_headers}
use tls_fetch_mcp.Fetcher.{Fetcher}
use tls_fetch_mcp.Policy.{Policy, Url, is_proxy_scheme, normal_host, resolve}
use tls_fetch_mcp.Policy.Address.{Ip}
use tls_fetch_mcp.Policy.Urls.{IsSafe, Passes}
use tls_fetch_mcp.Request.{read_body, response_limit}
use tls_fetch_mcp.Request.Exchange.{Input, Output, Sent, Reply, World}
use tls_fetch_mcp.Request.Send.{flag, is_allowed_method, or_url}
use tls_fetch_mcp.Request.Headers.{set_headers}
use tls_fetch_mcp.Request.Headers.Allowed.{IsAllowed}
use tls_fetch_mcp.Request.Send.Guards.{AllSafe}
use tls_fetch_mcp.Request.Send.Parts.{sent}

module _ {Jar : Type 0} (w : World Jar) where
  -- A proxy is used only if the configuration permits it, and its addresses pass the policy.
  abbrev pub IsPermitted : Config → Policy → Bytes → Type 0
  IsPermitted config policy proxy_url =
      (proxy_url ≡ [])
      ⊎ ((config.allow_proxy ≡ true)
          × ((parsed : Url) × (w.parse_url proxy_url ≡ some parsed)
              × (is_proxy_scheme parsed.scheme ≡ true)
              × ((l : List Ip) × (resolve w.proxy_resolver (normal_host w.unicode parsed) ≡ ok l)
                  × (l ≢ [])
                  × All (Passes policy) l)))

  -- The redirects that were followed: each of them safe when it was followed, at most nine, all of them
  -- in the history; none if they were not to be followed.
  abbrev pub HasFollowed : Policy → Input → List Url → List Bytes → Type 0
  HasFollowed policy input urls history =
      ((flag input.follow_redirects ≡ false) × (history ≡ []))
      ⊎ ((flag input.follow_redirects ≡ true)
          × AllSafe w policy 1 urls
          × (length urls ≤ 9)
          × (history ≡ map (λ url. url.text) urls))

  -- The output shows the reply to the request for the URL: its headers without the sensitive ones, whose
  -- names are listed, and the URL to which the redirects led.
  abbrev pub ShowsHead : Reply → Bytes → Output → Type 0
  ShowsHead reply url out =
      (out.status ≡ reply.status)
      × (out.status_text ≡ w.status_text reply.status)
      × (out.http_version ≡ reply.http_version)
      × (out.content_length ≡ reply.content_length)
      × (out.content_type ≡ w.get_header reply.headers (ascii "Content-Type"))
      × (out.final_url ≡ or_url w reply.final_url url)
      × ((out.headers, out.redacted_headers) ≡ sanitize_response_headers w.unicode reply.headers)

  -- The output counts the bytes that were kept, and shows their encoding unless the body is left out.
  abbrev pub ShowsBody : Input → Bytes → Output → Type 0
  ShowsBody input kept out =
      (out.bytes_returned ≡ length kept)
      × (out.body_encoding ≡ (encode_body kept).1)
      × (out.body ≡ (if flag input.include_body then (encode_body kept).0 else []))

  -- What a request that succeeds has kept to.
  pub record IsDelivered (f : Fetcher Jar) (input : Input) (out : Output) : Type 0 where
    -- The request that the client sends and its reply.
    pub sent : Sent Jar
    pub reply : Reply
    pub answered : w.send sent ≡ some reply
    pub url : Url
    pub target : (w.parse_url input.url ≡ some url) × (sent.url ≡ url.text)
    pub safe : IsSafe w.unicode f.policy w.url_resolver url
    pub method : Bytes
    pub allowed : (is_allowed_method method ≡ true) × (sent.method ≡ method)
    pub profile : (w.is_profile out.profile ≡ true) × (sent.profile ≡ out.profile)
    pub proxy : IsPermitted f.config f.policy sent.proxy_url
    pub headers : All (IsAllowed w.unicode) input.headers
    pub headed :
        set_headers w.unicode w.canonical input.headers input.header_order out.profile
        ≡ ok (sent.headers, sent.header_order)
    pub body : sent.body ≡ input.body
    pub redirects : HasFollowed f.policy input reply.redirects out.redirect_history
    -- The limit that was asked for or is the server's, and the bytes within it.
    pub limit : ℕ
    pub limited : response_limit f.config input.max_response_bytes ≡ ok (pos limit)
    pub within : (1 ≤ limit) × (pos limit ≤ℤ f.config.max_response_bytes)
    pub kept : Bytes
    pub read : read_body (pos limit) reply.stream ≡ ok (kept, out.truncated)
    pub bounded : length kept ≤ limit
    pub heads : ShowsHead reply url.text out
    pub shows : ShowsBody input kept out
