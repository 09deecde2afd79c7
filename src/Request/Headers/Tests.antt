-- ===== src/Request/Headers/Tests.antt =====
-- The headers of a request for a Firefox profile.
use tls_fetch_mcp.Common.{All, List, [], none, refl, ◌↔◌, ◌∷◌, ◌≡◌}
use tls_fetch_mcp.Text.{Bytes, ascii, eq_bytes}
use tls_fetch_mcp.Text.Case.{ascii_only}
use tls_fetch_mcp.Table.{Table, lookup}
use tls_fetch_mcp.Errors.{Result, ok, err, managed_header, empty_header_name, header_newline}
use tls_fetch_mcp.Request.Headers.{
  plain_name, is_forbidden, has_newline, profile_version, default_headers, set_headers,
}
use tls_fetch_mcp.Request.Headers.Allowed.{IsAllowed, assigned, set_headers_iff, set_headers-lookup}

program : Unit {0}
unfolding eq_bytes lookup plain_name is_forbidden has_newline profile_version default_headers
    set_headers
program = tt

abbrev same_spelling : Bytes → Bytes
same_spelling name = name

abbrev firefox : Bytes
firefox = ascii "firefox_133"

abbrev supplied : Table Bytes
supplied = (ascii "Accept", ascii "text/html") ∷ (ascii "X-Id", ascii "7") ∷ []

versions :
    (profile_version firefox (ascii "148") ≡ ascii "133")
    × (profile_version (ascii "safari_ios_18_0") (ascii "1") ≡ ascii "18")
    × (profile_version (ascii "firefox_x") (ascii "148") ≡ ascii "148")
unfolding program
versions = (refl, refl, refl)

abbrev set_one : Bytes → Bytes → Result (Table Bytes × List Bytes)
set_one name value = set_headers ascii_only same_spelling ((name, value) ∷ []) [] firefox

refuses_headers :
    (set_one (ascii " HOST ") (ascii "x") ≡ err (managed_header (ascii " HOST ")))
    × (set_one (ascii " ") (ascii "x") ≡ err empty_header_name)
    × (set_one (ascii "a") (13 ∷ 10 ∷ []) ≡ err header_newline)
unfolding program
refuses_headers = (refl, refl, refl)

abbrev sent : Table Bytes
sent =
    (ascii "Accept", ascii "text/html")
    ∷ (ascii "Accept-Language", ascii "en-US,en;q=0.9")
    ∷ (ascii "Cache-Control", ascii "no-cache")
    ∷ (
      ascii "User-Agent",
      ascii "Mozilla/5.0 (Macintosh; Intel Mac OS X 10.15; rv:133.0) Gecko/20100101 Firefox/133.0",
    )
    ∷ (ascii "X-Id", ascii "7")
    ∷ []

sets :
    set_headers ascii_only same_spelling supplied (ascii " X-Id" ∷ ascii " " ∷ []) firefox
    ≡ ok (sent, ascii "x-id" ∷ [])
unfolding program
sets = refl

set_headers_iff_example :
    ((out : Table Bytes × List Bytes) × (set_headers ascii_only same_spelling supplied [] firefox
        ≡ ok out))
    ↔ All (IsAllowed ascii_only) supplied
set_headers_iff_example = set_headers_iff ascii_only same_spelling supplied [] firefox

set_headers-lookup_example :
    lookup (ascii "Accept") sent
    ≡ assigned ascii_only same_spelling
        (ascii "Accept")
        (assigned ascii_only same_spelling (ascii "Accept") none (default_headers firefox))
        supplied
set_headers-lookup_example =
    set_headers-lookup ascii_only same_spelling supplied (ascii " X-Id" ∷ ascii " " ∷ []) firefox
      sent (ascii "x-id" ∷ []) sets (ascii "Accept")
