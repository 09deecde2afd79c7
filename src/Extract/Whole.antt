-- ===== src/Extract/Whole.antt =====
-- ExtractResponse of internal/fetch/extract.go behind the look-up: what it delivers.
pub mod Tests
use tls_fetch_mcp.Common.{
  All, All-weaken, List, inl, inr, length, pos, refl, some, suc, ℕ, ℤ, ◌<◌, ◌≡◌, ◌≤ℤ◌,
}
use tls_fetch_mcp.Errors.{Result, ok, err, Result-cases, Ensures}
use tls_fetch_mcp.Fetcher.{StoredResponse}
use tls_fetch_mcp.Extract.Types.{ExtractInput, QueryResult, ExtractOutput, Parsers}
use tls_fetch_mcp.Extract.Fit.{output_text, value_count}
use tls_fetch_mcp.Extract.Fit.Shorter.{IsCounted}
use tls_fetch_mcp.Extract.Fit.Size.{bare_len, with_bytes}
use tls_fetch_mcp.Extract.Fit.Fitted.{cut, AreCounted, IsTooLong, Fits, fit_output-Fits}
use tls_fetch_mcp.Extract.Limits.{
  IsBounded, IsWithin, Answered, Answered-AreBounded, extract_plan-IsWithin,
  extract_results-Answered, total_returned-value_count,
}
use tls_fetch_mcp.Extract.{full_output, Plan, extract_plan, extract_results, extract_record}

module _ {Value : Type 0} (w : Parsers Value) (max_read_bytes : ℤ) (input : ExtractInput)
    (record_ : StoredResponse) where
  -- What an output delivers: the first values of results that answer the queries.
  pub record IsDelivery (g : ExtractOutput) : Type 0 where
    pub plan : Plan
    pub results : List QueryResult
    pub within : IsWithin w max_read_bytes input plan
    pub answered : Answered w record_ plan results
    -- The number of bytes is right, and kept within the limit.
    pub measured : g.output_bytes ≡ length (output_text g)
    pub bounded : pos g.output_bytes ≤ℤ plan.max_bytes
    -- As many values as fit.
    pub kept : ℕ
    pub prefix :
        g ≡ with_bytes (cut kept (full_output input record_ plan.format results)) g.output_bytes
    pub longest :
        kept < value_count results
        → IsTooLong (full_output input record_ plan.format results) plan.max_bytes (suc kept)

  -- Texts are shorter than a machine's numbers.
  abbrev pub FitsMachine : Type 0
  FitsMachine =
      (plan : Plan) (results : List QueryResult)
      → extract_plan w max_read_bytes input record_ ≡ ok plan
      → extract_results w record_ plan ≡ ok results
      → bare_len (full_output input record_ plan.format results) < 99999999999999999000

  full-AreCounted :
      (plan : Plan) (results : List QueryResult)
      → Answered w record_ plan results
      → AreCounted (full_output input record_ plan.format results)
  full-AreCounted plan results a =
      let counted : All IsCounted results =
        All-weaken (IsBounded plan.max_results) IsCounted results (λ r h. h.0)
          (Answered-AreBounded w record_ plan results a) in
      (counted, total_returned-value_count results counted)

  delivered :
      (plan : Plan) (results : List QueryResult) (r : Result ExtractOutput)
      → IsWithin w max_read_bytes input plan
      → Answered w record_ plan results
      → Fits (full_output input record_ plan.format results) plan.max_bytes r
      → Ensures IsDelivery r
  delivered plan results (err e) within a fits = tt
  delivered plan results (ok g) within a (measured, bounded, (n, _, prefix, longest)) = record {
    plan = plan;
    results = results;
    within = within;
    answered = a;
    measured = measured;
    bounded = bounded;
    kept = n;
    prefix = prefix;
    longest = longest;
  }

  -- An extraction from a stored body always ends. Where it yields an output, this delivers the results of
  -- the queries: they are the trimmed queries of the input, between one and sixteen with distinct names; there
  -- is one result for each, in their order, which has the first values that its selector finds in the
  -- HTML or the JSON document, at most 100; of all these values the output has the first ones,
  -- as many as fit into the limit, which the server's limit bounds; and the number of bytes in it is the
  -- length of its JSON text.
  pub extract_record-IsDelivery :
      FitsMachine
      → (r : Result ExtractOutput) × (extract_record w max_read_bytes input record_ ≡ some r)
        × Ensures IsDelivery r
  unfolding extract_record
  extract_record-IsDelivery machine =
      elim (Result-cases (extract_plan w max_read_bytes input record_)) [
        | inr (e, p) ↦ (err e, rw (p, extract_record) refl, tt)
        | inl (plan, p) ↦ elim (Result-cases (extract_results w record_ plan)) [
          | inr (e, q) ↦ (err e, rw (p, extract_record) (rw (q, extract_record) refl), tt)
          | inl (results, q) ↦
              let a = extract_results-Answered w record_ plan results q in
              let (r, e, fits) =
                fit_output-Fits (full_output input record_ plan.format results) plan.max_bytes
                  (full-AreCounted plan results a) refl (machine plan results p q) in
              (
                r,
                rw (p, extract_record) (rw (q, extract_record) e),
                delivered plan results r
                    (extract_plan-IsWithin w max_read_bytes input record_ plan p) a fits,
              )
        ]
      ]
