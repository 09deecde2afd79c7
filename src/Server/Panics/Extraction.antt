-- ===== src/Server/Panics/Extraction.antt =====
-- ExtractResponse of internal/fetch/extract.go.
use tls_fetch_mcp.Common.{
  Bool, Bool-cases, List, Option-cases, [], arith, false, inl, inr, leb_ℤ, pos, refl, some, subst,
  suc, true, zero, ℕ, ℤ, ◌+◌, ◌∷◌, ◌≡◌,
}
use tls_fetch_mcp.Text.{Bytes}
use tls_fetch_mcp.Errors.{
  Result, ok, err, is_panic, Result-cases, Calm, Calm-bind, Calm-then, Calm-fail_if, Calm-wrap,
  Calm-or_fail, Calm-err, truncated_json,
}
use tls_fetch_mcp.Fetcher.{Fetcher, StoredResponse}
use tls_fetch_mcp.Text.Case.{Unicode}
use tls_fetch_mcp.Extract.Types.{
  Query, Decoded, decoded, end_of_input, malformed, Located, ExtractInput, ExtractOutput, Parsers,
}
use tls_fetch_mcp.Extract.Queries.{
  check_query, trimmed, validate_from, validate_queries, result_limit, output_limit, format_of,
  detect_format, media_type,
}
use tls_fetch_mcp.Extract.Json.{
  ensure_json_eof, decode_document, encode_all, json_query, json_queries, extract_json,
}
use tls_fetch_mcp.Extract.{
  extract_plan, extract_results, noting_truncation, Plan, full_output, planned, extract_record,
  extracted_from, extract_response,
}
use tls_fetch_mcp.Extract.Fit.{output_size, remove_value, fit_on, value_count, fit_output}
use tls_fetch_mcp.Clock.{Time}
use tls_fetch_mcp.Response.{response}
use tls_fetch_mcp.Response.Search.Ends.{response-Calm}
use tls_fetch_mcp.Server.Panics.Html.{extract_html-Calm}

check_query-Calm : (i : ℕ) (names : List Bytes) (q : Query) → Calm (check_query i names q)
unfolding check_query
check_query-Calm i names q = search (Calm-then, Calm-fail_if, arith) depth 14

validate_from-Calm :
    (u : Unicode) (i : ℕ) (names : List Bytes) (qs : List Query) → Calm (validate_from u i names qs)
unfolding validate_from
validate_from-Calm u i names [] = tt
validate_from-Calm u i names (q ∷ qs) =
    search
      (
        Calm-then,
        Calm-bind,
        check_query-Calm,
        validate_from-Calm u (i + 1) ((trimmed u q).name ∷ names) qs,
        arith,
      )
      depth 8

validate_queries-Calm : (u : Unicode) (qs : List Query) → Calm (validate_queries u qs)
unfolding validate_queries
validate_queries-Calm u qs = search (Calm-then, Calm-fail_if, validate_from-Calm, arith) depth 8

result_limit-Calm : (n : ℤ) → Calm (result_limit n)
unfolding result_limit
result_limit-Calm n = ground arith

output_limit-Calm : (most n : ℤ) → Calm (output_limit most n)
unfolding output_limit
output_limit-Calm most n = ground arith

format_of-Calm : (media_type body : Bytes) → Calm (format_of media_type body)
unfolding format_of
format_of-Calm media_type body = ground arith

fit_on-Calm :
    (fuel : ℕ) (o : ExtractOutput) (most : ℤ) (r : Result ExtractOutput)
    → fit_on fuel o most ≡ some r
    → Calm r
unfolding fit_on
fit_on-Calm fuel o most (ok out) h = tt
fit_on-Calm zero o most (err e) h = cc
fit_on-Calm (suc fuel) o most (err e) h =
    let sized = output_size o in
    elim (Bool-cases (leb_ℤ (pos sized.1) most)) [
      | inl fits ↦ absurd (ground arith)
      | inr long ↦ elim (Option-cases (remove_value sized.0)) [
        | inl q ↦ ground arith
        | inr (smaller, q) ↦ fit_on-Calm fuel smaller most (err e) (ground arith)
      ]
    ]

fit_output-Calm :
    (o : ExtractOutput) (most : ℤ) (r : Result ExtractOutput) → fit_output o most ≡ some r → Calm r
unfolding fit_output
fit_output-Calm o most r h = fit_on-Calm (suc (value_count o.results)) o most r h

module _ {Value : Type 0} (w : Parsers Value) where
  detect_format-Calm :
      (requested content_type body : Bytes) → Calm (detect_format w requested content_type body)
  unfolding detect_format
  detect_format-Calm requested content_type body =
      ground (arith, format_of-Calm (media_type w content_type) body)

  extract_plan-Calm :
      (most : ℤ) (input : ExtractInput) (r : StoredResponse) → Calm (extract_plan w most input r)
  unfolding extract_plan
  extract_plan-Calm most input r =
      search
        (
          Calm-then, Calm-bind, Calm-fail_if, validate_queries-Calm, result_limit-Calm,
          output_limit-Calm, detect_format-Calm, arith,
        )
        depth 16

  encode_all-Calm : (i : ℕ) (ns : List (Located Value)) → Calm (encode_all w i ns)
  unfolding encode_all
  encode_all-Calm i [] = tt
  encode_all-Calm i (n ∷ ns) = search (Calm-bind, Calm-or_fail, encode_all-Calm i ns, arith) depth 8

  json_query-Calm : (d : Value) (m i : ℕ) (q : Query) → Calm (json_query w d m i q)
  unfolding json_query
  json_query-Calm d m i q =
      search (Calm-then, Calm-bind, Calm-fail_if, Calm-or_fail, encode_all-Calm, arith) depth 12

  json_queries-Calm : (d : Value) (m i : ℕ) (qs : List Query) → Calm (json_queries w d m i qs)
  unfolding json_queries
  json_queries-Calm d m i [] = tt
  json_queries-Calm d m i (q ∷ qs) =
      search (Calm-bind, json_query-Calm, json_queries-Calm d m (i + 1) qs, arith) depth 8

  decode_document-Calm : (d : Decoded Value) → Calm (decode_document w d)
  unfolding decode_document ensure_json_eof
  decode_document-Calm (decoded d rest) = ground arith
  decode_document-Calm end_of_input = refl
  decode_document-Calm malformed = refl

  extract_json-Calm : (body : Bytes) (qs : List Query) (m : ℕ) → Calm (extract_json w body qs m)
  unfolding extract_json
  extract_json-Calm body qs m =
      search (Calm-bind, decode_document-Calm, json_queries-Calm, arith) depth 8

  noting-Calm : {A : Type 0} (b : Bool) (r : Result A) → Calm r → Calm (noting_truncation b r)
  noting-Calm false r h = h
  noting-Calm true r h = Calm-wrap truncated_json r (λ e. refl)

  extract_results-Calm : (r : StoredResponse) (plan : Plan) → Calm (extract_results w r plan)
  unfolding extract_results
  extract_results-Calm r plan = ground (
    arith,
    extract_html-Calm w r plan.queries plan.max_results,
    noting-Calm r.truncated (extract_json w r.body plan.queries plan.max_results)
        (extract_json-Calm r.body plan.queries plan.max_results),
  )

  planned-Calm :
      (input : ExtractInput) (r : StoredResponse) (plan : Result Plan)
      (result : Result ExtractOutput)
      → Calm plan
      → planned w input r plan ≡ some result
      → Calm result
  planned-Calm input r plan (ok out) c h = tt
  planned-Calm input r (err x) (err e) c h = ground arith
  planned-Calm input r (ok plan) (err e) c h = elim (Result-cases (extract_results w r plan)) [
    | inl (results, q) ↦
        fit_output-Calm (full_output input r plan.format results) plan.max_bytes (err e) (rw q at h)
    | inr (x, q) ↦
        let same : x ≡ e = ground arith in
        subst (λ e. is_panic e ≡ false) same
          (Calm-err (extract_results w r plan) x (extract_results-Calm r plan) q)
  ]

  extracted_from-Calm :
      {Jar : Type 0} (input : ExtractInput) (found : Fetcher Jar × Result StoredResponse)
      (g : Fetcher Jar) (result : Result ExtractOutput)
      → Calm found.1
      → extracted_from w input found ≡ some (g, result)
      → Calm result
  unfolding extract_record
  extracted_from-Calm input (f, found) g (ok out) c h = tt
  extracted_from-Calm input (f, err x) g (err e) c h = ground arith
  extracted_from-Calm input (f, ok record_) g (err e) c h =
      let plan = extract_plan w f.config.max_read_bytes input record_ in
      elim (Option-cases (planned w input record_ plan)) [
        | inl q ↦ absurd (ground arith)
        | inr (result, q) ↦
            let same : result ≡ err e = ground arith in
            subst Calm same (
              planned-Calm input record_ plan result
                (extract_plan-Calm f.config.max_read_bytes input record_) q)
      ]

  -- An extraction does not panic.
  pub extract_response-Calm :
      {Jar : Type 0} (now : Time) (input : ExtractInput) (f g : Fetcher Jar)
      (r : Result ExtractOutput)
      → extract_response w now input f ≡ some (g, r)
      → Calm r
  unfolding extract_response
  extract_response-Calm now input f g r h =
      extracted_from-Calm input (response now input.response_id f) g r
        (response-Calm now input.response_id f) h
