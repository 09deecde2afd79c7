-- ===== src/Session/Cookies.antt =====
-- `cookieSummary` of internal/fetch/session.go. What `GetAllCookies` returns is given as one list of
-- cookies for each URL of its map; of a cookie only the name is read, and `none` is a nil pointer.
pub mod Summary
use tls_fetch_mcp.Common.{List, Option, [], map, none, some, ℕ, ◌+◌, ◌∷◌}
use tls_fetch_mcp.Text.{Bytes}
use tls_fetch_mcp.Text.Order.{sort_strings}
use tls_fetch_mcp.Table.{Table, insert}

abbrev pub AllCookies : Type 0
AllCookies = List (List (Option Bytes))

-- The number of cookies and the set of names.
abbrev pub Tally : Type 0
Tally = ℕ × Table (Unit {0})

-- One round of the inner loop.
unfoldable pub tally_cookie : Option Bytes → Tally → Tally
unfolding insert
tally_cookie none (count, names) = (count + 1, names)
tally_cookie (some []) (count, names) = (count + 1, names)
tally_cookie (some (c ∷ name)) (count, names) = (count + 1, insert (c ∷ name) tt names)

unfoldable pub tally_cookies : List (Option Bytes) → Tally → Tally
unfolding tally_cookie
tally_cookies [] tally = tally
tally_cookies (cookie ∷ cookies) tally = tally_cookies cookies (tally_cookie cookie tally)

unfoldable pub tally_all : AllCookies → Tally → Tally
unfolding tally_cookies
tally_all [] tally = tally
tally_all (cookies ∷ rest) tally = tally_all rest (tally_cookies cookies tally)

unfoldable pub cookie_summary : AllCookies → ℕ × List Bytes
unfolding tally_all sort_strings
cookie_summary cookies =
    let (count, names) = tally_all cookies (0, []) in (count, sort_strings (map (λ e. e.0) names))
