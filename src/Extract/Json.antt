-- ===== src/Extract/Json.antt =====
-- `extractJSON` of internal/fetch/extract.go: the values that JSONPath expressions find.
pub mod Picked
use tls_fetch_mcp.Common.{List, [], length, ltb, not, take, ℕ, ◌+◌, ◌||◌, ◌∷◌}
use tls_fetch_mcp.Text.{Bytes, ascii, eq_bytes}
use tls_fetch_mcp.Errors.{
  Result, ok, err, ◌>>=◌, ◌>>◌, fail_if, or_fail, parse_json_failed, multiple_json_values,
  html_options_in_json, invalid_jsonpath, encode_value_failed,
}
use tls_fetch_mcp.Extract.Types.{
  Query, ExtractedValue, QueryResult, Decoded, decoded, end_of_input, malformed, Located, Parsers,
}

abbrev pub json_value : Bytes → Bytes → ExtractedValue
json_value encoded path = record { value = encoded; encoding = ascii "json"; path = path }

abbrev pub json_result : Query → ℕ → ℕ → List ExtractedValue → QueryResult
json_result query matched max_results values = record {
  name = query.name;
  selector = query.selector;
  mode = ascii "json";
  values = values;
  matched_count = matched;
  returned_count = length values;
  limited = ltb max_results matched;
}

module _ {Value : Type 0} where
  -- `ensureJSONEOF`, given the decoder's next answer.
  unfoldable pub ensure_json_eof : Decoded Value → Result (Unit {0})
  ensure_json_eof end_of_input = ok tt
  ensure_json_eof (decoded extra rest) = err multiple_json_values
  ensure_json_eof malformed = err parse_json_failed

module _ {Value : Type 0} (w : Parsers Value) where
  -- The value that the whole body stands for.
  unfoldable pub decode_document : Decoded Value → Result Value
  unfolding ensure_json_eof
  decode_document (decoded document rest) = do ensure_json_eof (w.decode rest); ok document
  decode_document end_of_input = err parse_json_failed
  decode_document malformed = err parse_json_failed

  -- The loop over the selected nodes.
  unfoldable pub encode_all : ℕ → List (Located Value) → Result (List ExtractedValue)
  encode_all i [] = ok []
  encode_all i (n ∷ nodes) = do
    encoded ← or_fail (w.marshal n.node) (encode_value_failed i)
    rest ← encode_all i nodes
    ok (json_value encoded n.path ∷ rest)

  -- A round of the loop over the queries.
  unfoldable pub json_query : Value → ℕ → ℕ → Query → Result QueryResult
  unfolding encode_all eq_bytes
  json_query document max_results i query = do
    fail_if
        (not (eq_bytes query.mode []) || not (eq_bytes query.attribute []) || query.resolve_urls)
        (html_options_in_json i)
    select ← or_fail (w.parse_jsonpath query.selector) (invalid_jsonpath i)
    let nodes = select document
    values ← encode_all i (take max_results nodes)
    ok (json_result query (length nodes) max_results values)

  unfoldable pub json_queries : Value → ℕ → ℕ → List Query → Result (List QueryResult)
  unfolding json_query
  json_queries document max_results i [] = ok []
  json_queries document max_results i (query ∷ queries) = do
    result ← json_query document max_results i query
    rest ← json_queries document max_results (i + 1) queries
    ok (result ∷ rest)

  -- `extractJSON`.
  unfoldable pub extract_json : Bytes → List Query → ℕ → Result (List QueryResult)
  unfolding decode_document json_queries
  extract_json body queries max_results = do
    document ← decode_document (w.decode body)
    json_queries document max_results 0 queries
