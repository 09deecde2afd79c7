-- ===== src/Response/Headers/Tests.antt =====
-- Headers of a response that sets cookies.
use tls_fetch_mcp.Common.{List, [], if◌then◌else◌, none, refl, ◌∷◌, ◌≡◌}
use mathlib.Core.List.{Perm}
use tls_fetch_mcp.Text.{one_of, Bytes, ascii, eq_bytes}
use tls_fetch_mcp.Text.Case.{ascii_only, to_lower}
use tls_fetch_mcp.Text.Order.{less}
use tls_fetch_mcp.Table.{Table, lookup, Distinct}
use tls_fetch_mcp.Response.Headers.{
  sort_case_insensitive, is_sensitive, sensitive_response_headers, sanitize_response_headers,
}
use tls_fetch_mcp.Response.Headers.Sorted.{Ascending}
use tls_fetch_mcp.Response.Headers.Redacted.{sensitive_names, sanitize_response_headers_lem}

program : Unit {0}
unfolding eq_bytes to_lower less lookup sort_case_insensitive is_sensitive sanitize_response_headers
program = tt

abbrev headers : Table (List Bytes)
headers =
    (ascii "Set-Cookie", ascii "a=1" ∷ ascii "b=2" ∷ [])
    ∷ (ascii "Server", ascii "x" ∷ [])
    ∷ (ascii "AUTHORIZATION", ascii "y" ∷ [])
    ∷ []

headers-Distinct : Distinct headers
unfolding program
headers-Distinct = (refl, (refl, (refl, tt)))

sanitizes :
    sanitize_response_headers ascii_only headers
    ≡ ((ascii "Server", ascii "x" ∷ []) ∷ [], ascii "AUTHORIZATION" ∷ ascii "Set-Cookie" ∷ [])
unfolding program
sanitizes = refl

sanitize_response_headers_lem_example :
    ((name : Bytes)
      → lookup name (sanitize_response_headers ascii_only headers).0 ≡ (
          if one_of (to_lower ascii_only name) sensitive_response_headers
          then none
          else lookup name headers))
    × Ascending ascii_only (sanitize_response_headers ascii_only headers).1
    × Perm (sanitize_response_headers ascii_only headers).1 (sensitive_names ascii_only headers)
sanitize_response_headers_lem_example =
    sanitize_response_headers_lem ascii_only headers headers-Distinct
