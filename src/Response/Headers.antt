-- ===== src/Response/Headers.antt =====
-- `sanitizeResponseHeaders` and `sortStringsCaseInsensitive` of internal/fetch/response_store.go.
use tls_fetch_mcp.Common.{Bool, List, [], false, true, ◌++◌, ◌∷◌}
use tls_fetch_mcp.Text.{one_of, Bytes, ascii}
use tls_fetch_mcp.Text.Case.{Unicode, to_lower}
use tls_fetch_mcp.Text.Order.{less}
use tls_fetch_mcp.Table.{Table, insert}
pub mod Sorted
pub mod Redacted
pub mod Tests

abbrev pub sensitive_response_headers : List Bytes
sensitive_response_headers =
    ascii "authentication-info"
    ∷ ascii "authorization"
    ∷ ascii "proxy-authenticate"
    ∷ ascii "proxy-authentication-info"
    ∷ ascii "proxy-authorization"
    ∷ ascii "set-cookie"
    ∷ ascii "set-cookie2"
    ∷ []

-- The first list from its end, in front of the second.
abbrev pub reverse_onto : List Bytes → List Bytes → List Bytes
reverse_onto [] right = right
reverse_onto (x ∷ l) right = reverse_onto l (x ∷ right)

module _ (u : Unicode) where
  -- `strings.ToLower(a) < strings.ToLower(b)`.
  abbrev pub before : Bytes → Bytes → Bool
  before a b = less (to_lower u a) (to_lower u b)

  -- The inner loop: the value moves left past what it comes before. The sorted part of the slice is
  -- listed from its right end.
  unfoldable pub sink : Bytes → List Bytes → List Bytes
  sink value [] = value ∷ []
  sink value (last ∷ sorted) = elim (before value last) [
    | true ↦ last ∷ sink value sorted
    | false ↦ value ∷ last ∷ sorted
  ]

  -- The outer loop, and the sorted part from its left end when it is through.
  unfoldable pub sort_from : List Bytes → List Bytes → List Bytes
  unfolding sink
  sort_from sorted [] = reverse_onto sorted []
  sort_from sorted (value ∷ values) = sort_from (sink value sorted) values

  unfoldable pub sort_case_insensitive : List Bytes → List Bytes
  unfolding sort_from
  sort_case_insensitive values = sort_from [] values

  unfoldable pub is_sensitive : Bytes → Bool
  is_sensitive name = one_of (to_lower u name) sensitive_response_headers

  -- The loop over the headers, from the safe headers and the redacted names so far.
  unfoldable pub sanitize_from :
      Table (List Bytes) → List Bytes → Table (List Bytes) → Table (List Bytes) × List Bytes
  unfolding insert
  sanitize_from safe redacted [] = (safe, redacted)
  sanitize_from safe redacted ((name, values) ∷ headers) = elim (is_sensitive name) [
    | true ↦ sanitize_from safe (redacted ++ (name ∷ [])) headers
    | false ↦ sanitize_from (insert name values safe) redacted headers
  ]

  unfoldable pub sanitize_response_headers : Table (List Bytes) → Table (List Bytes) × List Bytes
  unfolding sanitize_from sort_case_insensitive
  sanitize_response_headers headers =
      let (safe, redacted) = sanitize_from [] [] headers in (safe, sort_case_insensitive redacted)
