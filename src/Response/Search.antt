-- ===== src/Response/Search.antt =====
-- `SearchResponse`: literal text in a stored body, with windows of context.
use tls_fetch_mcp.Common.{
  Bool, List, Option, [], if◌then◌else◌, is_zero, length, ltb, ltb_ℤ, min, not, pos, pos_part, some,
  suc, ℕ, ℤ, ◌+◌, ◌-◌, ◌||◌, ◌∷◌,
}
use mathlib.Core.Option
pub mod Scan
pub mod Occurrences
pub mod Window
pub mod Complete
pub mod Ends
use tls_fetch_mcp.Text.{Bytes, eq_bytes}
use tls_fetch_mcp.Text.Utf8.{valid}
use tls_fetch_mcp.Clock.{Time}
use tls_fetch_mcp.Errors.{
  Result, ok, err, ◌>>=◌, ◌>>◌, fail_if, or_fail, search_needs_utf8, query_required, bad_query,
  bad_max_matches, bad_context_bytes, panic,
}
use tls_fetch_mcp.Fetcher.{Fetcher, StoredResponse}
use tls_fetch_mcp.Response.{response}
use Scan.{scan, ascii_lower_copy}
use Window.{valid_utf8_window}

abbrev pub default_search_matches : ℤ
default_search_matches = pos 20

abbrev pub max_search_matches : ℤ
max_search_matches = pos 50

abbrev pub default_search_context : ℤ
default_search_context = pos 160

abbrev pub max_search_context : ℤ
max_search_context = pos 1024

abbrev pub max_search_query_bytes : ℕ
max_search_query_bytes = 1024

-- `ResponseSearchInput`.
pub record SearchInput : Type 0 where
  pub response_id : Bytes
  pub query : Bytes
  pub case_sensitive : Bool
  pub max_matches : ℤ
  pub context_bytes : ℤ

-- `ResponseSearchMatch`.
pub record SearchMatch : Type 0 where
  pub offset : ℕ
  pub context : Bytes

-- `ResponseSearchOutput`.
pub record SearchOutput : Type 0 where
  pub response_id : Bytes
  pub query : Bytes
  pub matches : List SearchMatch
  pub match_count : ℕ
  pub limited : Bool
  pub total_bytes : ℕ

abbrev or_default : ℤ → ℤ → ℤ
or_default value default = if is_zero value then default else value

-- The window around a match at the offset.
unfoldable pub match_at : Bytes → ℕ → ℕ → ℕ → Result SearchMatch
match_at body query_bytes context_bytes offset = do
  let end = offset + query_bytes + context_bytes
  context ← or_fail (valid_utf8_window body (offset - context_bytes) (min end (length body))) panic
  ok (record { offset = offset; context = context })

unfoldable pub matches_at : Bytes → ℕ → ℕ → List ℕ → Result (List SearchMatch)
matches_at body query_bytes context_bytes [] = ok []
matches_at body query_bytes context_bytes (offset ∷ offsets) = do
  m ← match_at body query_bytes context_bytes offset
  rest ← matches_at body query_bytes context_bytes offsets
  ok (m ∷ rest)

-- The checks of `SearchResponse`: the number of matches and of context bytes to use.
unfoldable pub search_limits : SearchInput → Bytes → Result (ℕ × ℕ)
search_limits input body = do
  fail_if (not (valid body)) search_needs_utf8
  fail_if (eq_bytes input.query []) query_required
  fail_if (not (valid input.query) || ltb max_search_query_bytes (length input.query)) bad_query
  let max_matches = or_default input.max_matches default_search_matches
  fail_if (ltb_ℤ max_matches (pos 1) || ltb_ℤ max_search_matches max_matches) bad_max_matches
  let context_bytes = or_default input.context_bytes default_search_context
  fail_if (ltb_ℤ context_bytes (pos 0) || ltb_ℤ max_search_context context_bytes) bad_context_bytes
  ok (pos_part max_matches, pos_part context_bytes)

-- The text that the loop runs over.
abbrev pub folded : SearchInput → Bytes → Bytes
folded input s = if input.case_sensitive then s else ascii_lower_copy s

abbrev search_output : SearchInput → Bytes → List SearchMatch × Bool → SearchOutput
search_output input body (matches, limited) = record {
  response_id = input.response_id;
  query = input.query;
  matches = matches;
  match_count = length matches;
  limited = limited;
  total_bytes = length body;
}

-- The matches with their contexts.
abbrev pub search_found : SearchInput → Bytes → ℕ → List ℕ × Bool → Result SearchOutput
search_found input body context_bytes (offsets, limited) = do
  matches ← matches_at body (length input.query) context_bytes offsets
  ok (search_output input body (matches, limited))

-- The part of `SearchResponse` behind the look-up; `none` would be a loop that does not end.
unfoldable pub search_record : SearchInput → Bytes → Option (Result SearchOutput)
search_record input body = elim (search_limits input body) [
  | err e ↦ some (err e)
  | ok (max_matches, context_bytes) ↦
      let haystack = folded input body in
      Option.map (search_found input body context_bytes)
        (scan haystack (folded input input.query) max_matches (suc (length haystack)) 0 0)
]

abbrev pub searched_from :
    {Jar : Type 0}
    → SearchInput
    → Fetcher Jar × Result StoredResponse
    → Option (Fetcher Jar × Result SearchOutput)
searched_from input (g, err e) = some (g, err e)
searched_from input (g, ok record_) = Option.map (λ r. (g, r)) (search_record input record_.body)

-- `SearchResponse`.
unfoldable pub search_response :
    {Jar : Type 0} → Time → SearchInput → Fetcher Jar → Option (Fetcher Jar × Result SearchOutput)
search_response now input f = searched_from input (response now input.response_id f)
