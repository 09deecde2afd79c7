-- ===== src/Extract/Queries.antt =====
-- The checks of internal/fetch/extract.go on its input: the queries, the limits and the format.
pub mod Accepted
use tls_fetch_mcp.Common.{
  Bool, List, Option, [], if◌then◌else◌, is_zero, leb, length, ltb, ltb_ℤ, none, not, pos, pos_part,
  some, ℕ, ℤ, ◌*◌, ◌+◌, ◌==◌, ◌||◌, ◌∷◌,
}
use tls_fetch_mcp.Text.{Bytes, ascii, eq_bytes, has_suffix, one_of}
use tls_fetch_mcp.Text.Case.{Unicode, to_lower}
use tls_fetch_mcp.Text.Space.{trim_space}
use tls_fetch_mcp.Text.Utf8.{valid}
use tls_fetch_mcp.Errors.{
  Result, ok, err, ◌>>=◌, ◌>>◌, fail_if, queries_required, too_many_queries, query_name_required,
  bad_query_name, query_name_duplicated, query_selector_required, bad_query_selector,
  bad_max_results, bad_max_output_bytes, bad_format, undetected_format,
}
use tls_fetch_mcp.Extract.Types.{Query, Parsers}

abbrev pub default_extract_results : ℤ
default_extract_results = pos 20

abbrev pub max_extract_results : ℤ
max_extract_results = pos 100

abbrev pub max_extract_queries : ℕ
max_extract_queries = 16

abbrev pub max_extract_name_bytes : ℕ
max_extract_name_bytes = 128

abbrev pub max_extract_selector_bytes : ℕ
max_extract_selector_bytes = 2 * 1024

abbrev pub default_extract_output_bytes : ℤ
default_extract_output_bytes = pos (64 * 1024)

-- `!utf8.ValidString(s) || len(s) > limit`.
abbrev pub bad_text : ℕ → Bytes → Bool
bad_text limit s = not (valid s) || ltb limit (length s)

-- The checks of a query, whose place is given, behind queries with the names given.
unfoldable pub check_query : ℕ → List Bytes → Query → Result (Unit {0})
unfolding eq_bytes
check_query i names query = do
  fail_if (eq_bytes query.name []) (query_name_required i)
  fail_if (bad_text max_extract_name_bytes query.name) (bad_query_name i)
  fail_if (one_of query.name names) (query_name_duplicated i query.name)
  fail_if (eq_bytes query.selector []) (query_selector_required i)
  fail_if (bad_text max_extract_selector_bytes query.selector) (bad_query_selector i)

module _ (u : Unicode) where
  -- The query with its texts trimmed and its mode lowered.
  unfoldable pub trimmed : Query → Query
  unfolding to_lower trim_space
  trimmed query = record {
    name = trim_space query.name;
    selector = trim_space query.selector;
    mode = to_lower u (trim_space query.mode);
    attribute = trim_space query.attribute;
    resolve_urls = query.resolve_urls;
  }

  -- The loop of `validateExtractQueries`.
  unfoldable pub validate_from : ℕ → List Bytes → List Query → Result (List Query)
  unfolding check_query trimmed
  validate_from i names [] = ok []
  validate_from i names (query ∷ queries) = do
    check_query i names (trimmed query)
    rest ← validate_from (i + 1) ((trimmed query).name ∷ names) queries
    ok (trimmed query ∷ rest)

  -- `validateExtractQueries`.
  unfoldable pub validate_queries : List Query → Result (List Query)
  unfolding validate_from
  validate_queries queries = do
    fail_if (leb (length queries) 0) queries_required
    fail_if (ltb max_extract_queries (length queries)) too_many_queries
    validate_from 0 [] queries

-- `extractResultLimit`.
unfoldable pub result_limit : ℤ → Result ℕ
result_limit value = if is_zero value then ok (pos_part default_extract_results) else (do
  fail_if (ltb_ℤ value (pos 1) || ltb_ℤ max_extract_results value) bad_max_results
  ok (pos_part value))

-- `extractOutputLimit`, within the limit of the server.
unfoldable pub output_limit : ℤ → ℤ → Result ℤ
output_limit max_read_bytes value = do
  let default =
      if ltb_ℤ max_read_bytes default_extract_output_bytes
      then max_read_bytes
      else default_extract_output_bytes
  let chosen = if is_zero value then default else value
  fail_if (ltb_ℤ chosen (pos 1) || ltb_ℤ max_read_bytes chosen)
      (bad_max_output_bytes max_read_bytes)
  ok chosen

-- The format that the first byte of a trimmed body tells.
abbrev pub sniffed : Bytes → Result Bytes
sniffed [] = err undetected_format
sniffed (c ∷ s) =
    if c == b'{' || c == b'['
    then ok (ascii "json")
    else if c == b'<'
    then ok (ascii "html")
    else err undetected_format

-- The format that a media type tells, or else the body.
unfoldable pub format_of : Bytes → Bytes → Result Bytes
unfolding eq_bytes has_suffix trim_space
format_of media_type body =
    if one_of media_type (ascii "text/html" ∷ ascii "application/xhtml+xml" ∷ [])
    then ok (ascii "html")
    else if eq_bytes media_type (ascii "application/json") || has_suffix media_type (ascii "+json")
    then ok (ascii "json")
    else sniffed (trim_space body)

module _ {Value : Type 0} (w : Parsers Value) where
  abbrev parsed_or : Option Bytes → Bytes → Bytes
  parsed_or none content_type = to_lower w.unicode (trim_space content_type)
  parsed_or (some parsed) content_type = to_lower w.unicode parsed

  unfoldable pub media_type : Bytes → Bytes
  unfolding to_lower trim_space
  media_type content_type = parsed_or (w.parse_media_type content_type) content_type

  -- `detectExtractFormat`.
  unfoldable pub detect_format : Bytes → Bytes → Bytes → Result Bytes
  unfolding format_of media_type
  detect_format requested content_type body =
      let format = to_lower w.unicode (trim_space requested) in
      if one_of format (ascii "html" ∷ ascii "json" ∷ [])
      then ok format
      else if one_of format ([] ∷ ascii "auto" ∷ [])
      then format_of (media_type content_type) body
      else err bad_format
