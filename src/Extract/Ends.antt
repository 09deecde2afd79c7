-- ===== src/Extract/Ends.antt =====
-- ExtractResponse of internal/fetch/extract.go ends.
use tls_fetch_mcp.Common.{inl, inr, refl, some, ℤ, ◌≡◌}
use tls_fetch_mcp.Clock.{Time}
use tls_fetch_mcp.Errors.{Result, ok, err, Result-cases}
use tls_fetch_mcp.Fetcher.{Fetcher, StoredResponse}
use tls_fetch_mcp.Response.{response}
use tls_fetch_mcp.Extract.Types.{ExtractInput, ExtractOutput, Parsers}
use tls_fetch_mcp.Extract.Fit.Ends.{fit_output_ends}
use tls_fetch_mcp.Extract.{
  full_output, extract_plan, extract_results, extract_record, extracted_from, extract_response,
}

module _ {Value : Type 0} (w : Parsers Value) where
  extract_record_ends :
      (max_read_bytes : ℤ) (input : ExtractInput) (record_ : StoredResponse)
      → (r : Result ExtractOutput) × (extract_record w max_read_bytes input record_ ≡ some r)
  unfolding extract_record
  extract_record_ends max_read_bytes input record_ =
      elim (Result-cases (extract_plan w max_read_bytes input record_)) [
        | inr (e, p) ↦ (err e, rw (p, extract_record) refl)
        | inl (plan, p) ↦ elim (Result-cases (extract_results w record_ plan)) [
          | inr (e, q) ↦ (err e, rw (p, extract_record) (rw (q, extract_record) refl))
          | inl (results, q) ↦
              let (r, e) =
                fit_output_ends (full_output input record_ plan.format results) plan.max_bytes in
              (r, rw (p, extract_record) (rw (q, extract_record) e))
        ]
      ]

  extracted_from_ends :
      {Jar : Type 0} (input : ExtractInput) (found : Fetcher Jar × Result StoredResponse)
      → (r : Result ExtractOutput) × (extracted_from w input found ≡ some (found.0, r))
  extracted_from_ends input (g, err e) = (err e, refl)
  extracted_from_ends input (g, ok record_) =
      let (r, e) = extract_record_ends g.config.max_read_bytes input record_ in (r, rw e refl)

  -- An extraction ends, and leaves the state that the look-up leaves.
  pub extract_response_ends :
      {Jar : Type 0} (now : Time) (input : ExtractInput) (f : Fetcher Jar)
      → (r : Result ExtractOutput) × (extract_response w now input f
          ≡ some ((response now input.response_id f).0, r))
  unfolding extract_response
  extract_response_ends now input f = extracted_from_ends input (response now input.response_id f)
