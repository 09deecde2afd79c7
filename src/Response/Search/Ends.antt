-- ===== src/Response/Search/Ends.antt =====
-- SearchResponse of internal/fetch/response_store.go ends without a run-time panic.
use tls_fetch_mcp.Common.{arith, inl, inr, refl, some, ◌≡◌}
use tls_fetch_mcp.Text.{Bytes}
use tls_fetch_mcp.Clock.{Time}
use tls_fetch_mcp.Errors.{Result, ok, err, Result-cases, Calm, Calm-then, Calm-fail_if, Calm-err}
use tls_fetch_mcp.Fetcher.{Fetcher, StoredResponse}
use tls_fetch_mcp.Response.{response}
use tls_fetch_mcp.Response.Search.{
  SearchInput, SearchOutput, search_limits, search_record, searched_from, search_response,
}
use tls_fetch_mcp.Response.Search.Complete.{search_record-Found}

search_limits-Calm : (input : SearchInput) (body : Bytes) → Calm (search_limits input body)
unfolding search_limits
search_limits-Calm input body = search (Calm-then, Calm-fail_if, arith) depth 14

search_record_ends :
    (input : SearchInput) (body : Bytes)
    → (r : Result SearchOutput) × (search_record input body ≡ some r) × Calm r
unfolding search_record
search_record_ends input body = elim (Result-cases (search_limits input body)) [
  | inr (e, q) ↦ (
    err e,
    rw (q, search_record) refl,
    Calm-err (search_limits input body) e (search_limits-Calm input body) q,
  )
  | inl ((max_matches, context_bytes), q) ↦
      let (out, e, _) = search_record-Found input body max_matches context_bytes q in
      (ok out, e, tt)
]

-- The result of a look-up is not a panic.
pub response-Calm :
    {Jar : Type 0} (now : Time) (id : Bytes) (f : Fetcher Jar) → Calm (response now id f).1
unfolding response
response-Calm now id f = ground arith

searched_from_ends :
    {Jar : Type 0} (input : SearchInput) (found : Fetcher Jar × Result StoredResponse)
    → Calm found.1
    → (r : Result SearchOutput) × (searched_from input found ≡ some (found.0, r)) × Calm r
searched_from_ends input (g, err e) h = (err e, refl, h)
searched_from_ends input (g, ok record_) h =
    let (r, e, calm) = search_record_ends input record_.body in (r, rw e refl, calm)

-- A search ends without a panic, and leaves the state that the look-up leaves.
pub search_response_ends :
    {Jar : Type 0} (now : Time) (input : SearchInput) (f : Fetcher Jar)
    → (r : Result SearchOutput) × (search_response now input f
        ≡ some ((response now input.response_id f).0, r))
      × Calm r
unfolding search_response
search_response_ends now input f =
    searched_from_ends input (response now input.response_id f)
      (response-Calm now input.response_id f)
