-- ===== src/Request/Send/Readable.antt =====
-- Do of internal/fetch/fetch.go and the look-up of the response that it has stored.
use tls_fetch_mcp.Common.{
  Option, ap, arith, inl, inr, length, none, refl, some, subst, sym, true, ℤ, ◌<ℤ◌, ◌∙◌, ◌≡◌,
}
use tls_fetch_mcp.Text.{Bytes}
use tls_fetch_mcp.Clock.{Time, deadline}
use tls_fetch_mcp.Encoding.{encode_body}
use tls_fetch_mcp.Errors.{Result, ok}
use tls_fetch_mcp.Fetcher.{Fetcher, StoredResponse}
use tls_fetch_mcp.Response.{new_record, store_response, response}
use tls_fetch_mcp.Response.Valid as Responses
use tls_fetch_mcp.Response.Live.{store_response-Stored}
use tls_fetch_mcp.History.Frame.{SameResponses, touch_session-SameResponses, SameResponses-IsValid}
use tls_fetch_mcp.Request.Exchange.{Input, Output, World, Prepared, Received}
use tls_fetch_mcp.Request.Send.{flag, do_fetch, touched, output, metadata_of}
use tls_fetch_mcp.Request.Send.Steps.{SameRules, do_fetch-Ran}
use tls_fetch_mcp.Request.Send.Parts.{finish-Finished}

-- The record is what the output describes.
abbrev pub Describes : Input → Output → StoredResponse → Type 0
Describes input out r =
    (out.bytes_returned ≡ length r.body)
    × (out.truncated ≡ r.truncated)
    × (out.content_type ≡ r.content_type)
    × (out.final_url ≡ r.final_url)
    × (flag input.include_body ≡ true → (out.body, out.body_encoding) ≡ encode_body r.body)

module _ {Jar : Type 0} (w : World Jar) where
  pub touched-SameResponses :
      (jar : Option Jar) (session_id : Bytes) (f : Fetcher Jar)
      → SameResponses f (touched w jar session_id f)
  touched-SameResponses none session_id f = (refl, refl)
  touched-SameResponses (some jar) session_id f =
      touch_session-SameResponses w.touch_time session_id f

  -- The state in which the response is stored.
  storing-IsValid :
      (f state : Fetcher Jar) (jar : Option Jar) (session_id : Bytes)
      → Responses.IsValid f
      → SameRules f state
      → Responses.IsValid (touched w jar session_id state)
  storing-IsValid f state jar session_id v (config, _, responses) =
      SameResponses-IsValid state (touched w jar session_id state)
        (touched-SameResponses jar session_id state)
        (SameResponses-IsValid f state (responses, config) v)

  output-Describes :
      (input : Input) (p : Prepared) (jar : Option Jar) (r : Received) (id : Bytes) (ttl : ℤ)
      → Describes input
          (output w input p jar r id)
          (new_record w.store_time ttl r.body (metadata_of w p r))
  output-Describes input p jar r id ttl = (refl, refl, refl, refl, (λ h. rw h refl))

  stored_injective :
      {g h : Fetcher Jar} {i j : Bytes}
      → ◌≡◌ {A = Option (Fetcher Jar × Result Bytes)} (some (g, ok i)) (some (h, ok j))
      → (g ≡ h) × (i ≡ j)
  stored_injective e = ground arith

  -- What a client that is told the identifier can do with it.
  abbrev pub IsReadable : Input → Output → ℤ → Fetcher Jar → Type 0
  IsReadable input out ttl g =
      (r : StoredResponse) × Describes input out r
      × (r.expires_at ≡ deadline w.store_time ttl)
      × ((later : Time) → later <ℤ r.expires_at → (response later out.response_id g).1 ≡ ok r)

  -- Where a request succeeds whose response is to be stored, the identifier in the output names a record until
  -- this expires, after the configured time: its body has as many bytes as the output counts, its final
  -- URL, its type and whether it is truncated are those of the output, and the body in the output, if it is
  -- to be included, is the encoding of the stored one. The responses before the request satisfy their
  -- invariant, and the random bytes are there.
  pub do_fetch-IsReadable :
      (f g : Fetcher Jar) (input : Input) (out : Output) (value : Bytes)
      → Responses.IsValid f
      → w.random ≡ some value
      → length value ≡ 16
      → input.store_response ≡ true
      → do_fetch w f input ≡ some (g, ok out)
      → IsReadable input out f.config.response_ttl g
  do_fetch-IsReadable f g input out value v random n keep h =
      let ran = do_fetch-Ran w input f g out h in
      let p = ran.prepared in
      let r = ran.received in
      let state = touched w ran.jar input.session_id ran.state in
      let valid = storing-IsValid f ran.state ran.jar input.session_id v ran.same in
      let (g', stores, stored) =
        store_response-Stored value w.store_time r.body (metadata_of w p r) state valid n in
      elim (finish-Finished w input ran.state p ran.jar r g out ran.finished) [
        | inr (skip, _, _) ↦ absurd (ground arith)
        | inl (_, (id, q, same)) ↦
            let q' : store_response (some value) w.store_time r.body (metadata_of w p r) state
                ≡ some (g, ok id) =
              subst
                (λ x.
                  store_response x w.store_time r.body (metadata_of w p r) state ≡ some (g, ok id))
                random q in
            let (here, named) = stored_injective (sym stores ∙ q') in
            let ttl : state.config.response_ttl ≡ f.config.response_ttl =
              ap (λ c. c.response_ttl)
                ((touched-SameResponses ran.jar input.session_id ran.state).1 ∙ ran.same.0) in
            subst (λ k. IsReadable input out k g) ttl
              (subst (IsReadable input out state.config.response_ttl) here (
                subst (λ o. IsReadable input o state.config.response_ttl g') (sym same)
                  (
                    new_record w.store_time state.config.response_ttl r.body (metadata_of w p r),
                    output-Describes input p ran.jar r id state.config.response_ttl,
                    refl,
                    (λ later soon.
                        subst
                          (λ i.
                            (response later i g').1
                            ≡ ok (
                                new_record w.store_time state.config.response_ttl r.body
                                  (metadata_of w p r)))
                          named (stored.readable later soon)),
                  )))
      ]
