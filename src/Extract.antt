-- ===== src/Extract.antt =====
-- `ExtractResponse` of internal/fetch/extract.go: values of a stored HTML or JSON body.
pub mod Types
pub mod Queries
pub mod Html
pub mod Json
pub mod Fit
pub mod Limits
pub mod Whole
pub mod Ends
pub mod Tests
use tls_fetch_mcp.Common.{
  Bool, List, Option, [], false, if◌then◌else◌, length, not, some, true, ℕ, ℤ, ◌+◌, ◌||◌, ◌∷◌,
}
use mathlib.Core.Option
use tls_fetch_mcp.Text.{Bytes, ascii, eq_bytes}
use tls_fetch_mcp.Text.Utf8.{valid}
use tls_fetch_mcp.Clock.{Time}
use tls_fetch_mcp.Errors.{
  Result, ok, err, ◌>>=◌, ◌>>◌, fail_if, wrap, extract_needs_utf8, unsupported_format,
  truncated_json,
}
use tls_fetch_mcp.Fetcher.{Fetcher, StoredResponse}
use tls_fetch_mcp.Response.{response}
use Types.{Query, ExtractInput, QueryResult, ExtractOutput, Parsers}
use Queries.{validate_queries, result_limit, output_limit, detect_format}
use Html.{extract_html}
use Json.{extract_json}
use Fit.{fit_output}

-- The sum of the results' counts, and whether one of them is limited.
unfoldable pub total_returned : List QueryResult → ℕ
total_returned [] = 0
total_returned (r ∷ rs) = r.returned_count + total_returned rs

unfoldable pub any_limited : List QueryResult → Bool
any_limited [] = false
any_limited (r ∷ rs) = r.limited || any_limited rs

-- The output before it is made to fit.
abbrev pub full_output : ExtractInput → StoredResponse → Bytes → List QueryResult → ExtractOutput
full_output input record_ format results = record {
  response_id = input.response_id;
  format = format;
  content_type = record_.content_type;
  final_url = record_.final_url;
  source_bytes = length record_.body;
  source_truncated = record_.truncated;
  results = results;
  returned_count = total_returned results;
  limited = any_limited results;
  output_bytes = 0;
}

-- An error of a JSON body that is stored in part says so.
abbrev pub noting_truncation : {A : Type 0} → Bool → Result A → Result A
noting_truncation false r = r
noting_truncation true r = wrap truncated_json r

-- What the checks of `ExtractResponse` yield: the queries, the number of values of each, the number of
-- bytes, and the format.
pub record Plan : Type 0 where
  pub queries : List Query
  pub max_results : ℕ
  pub max_bytes : ℤ
  pub format : Bytes

module _ {Value : Type 0} (w : Parsers Value) where
  -- The checks of `ExtractResponse`.
  unfoldable pub extract_plan : ℤ → ExtractInput → StoredResponse → Result Plan
  extract_plan max_read_bytes input record_ = do
    fail_if (not (valid record_.body)) extract_needs_utf8
    queries ← validate_queries w.unicode input.queries
    max_results ← result_limit input.max_results
    max_bytes ← output_limit max_read_bytes input.max_output_bytes
    format ← detect_format w input.format record_.content_type record_.body
    ok (record {
      queries = queries;
      max_results = max_results;
      max_bytes = max_bytes;
      format = format;
    })

  -- The `switch` on the format.
  unfoldable pub extract_results : StoredResponse → Plan → Result (List QueryResult)
  extract_results record_ plan =
      if eq_bytes plan.format (ascii "html")
      then extract_html w record_ plan.queries plan.max_results
      else if eq_bytes plan.format (ascii "json")
      then noting_truncation record_.truncated
          (extract_json w record_.body plan.queries plan.max_results)
      else err (unsupported_format plan.format)

  abbrev pub fitted :
      ExtractInput
      → StoredResponse
      → Plan
      → Result (List QueryResult)
      → Option (Result ExtractOutput)
  fitted input record_ plan (err e) = some (err e)
  fitted input record_ plan (ok results) =
      fit_output (full_output input record_ plan.format results) plan.max_bytes

  abbrev pub planned : ExtractInput → StoredResponse → Result Plan → Option (Result ExtractOutput)
  planned input record_ (err e) = some (err e)
  planned input record_ (ok plan) = fitted input record_ plan (extract_results record_ plan)

  -- The part of `ExtractResponse` behind the look-up; `none` would be a loop that does not end.
  unfoldable pub extract_record : ℤ → ExtractInput → StoredResponse → Option (Result ExtractOutput)
  extract_record max_read_bytes input record_ =
      planned input record_ (extract_plan max_read_bytes input record_)

  abbrev pub extracted_from :
      {Jar : Type 0}
      → ExtractInput
      → Fetcher Jar × Result StoredResponse
      → Option (Fetcher Jar × Result ExtractOutput)
  extracted_from input (g, err e) = some (g, err e)
  extracted_from input (g, ok record_) =
      Option.map (λ result. (g, result)) (extract_record g.config.max_read_bytes input record_)

  -- `ExtractResponse`.
  unfoldable pub extract_response :
      {Jar : Type 0}
      → Time
      → ExtractInput
      → Fetcher Jar
      → Option (Fetcher Jar × Result ExtractOutput)
  extract_response now input f = extracted_from input (response now input.response_id f)
