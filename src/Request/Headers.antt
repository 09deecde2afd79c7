-- ===== src/Request/Headers.antt =====
-- The headers of a request: `setHeaders`, `defaultHeaders` and `profileVersion` of
-- internal/fetch/fetch.go. `canonical` is the spelling that the HTTP library's `Header.Set` gives to a
-- name.
use tls_fetch_mcp.Common.{Bool, List, [], false, if◌then◌else◌, none, some, ◌++◌, ◌==◌, ◌||◌, ◌∷◌}
pub mod Allowed
pub mod Tests
use tls_fetch_mcp.Text.{one_of, Bytes, ascii, eq_bytes, has_prefix}
use tls_fetch_mcp.Text.Case.{Unicode, to_lower}
use tls_fetch_mcp.Text.Space.{trim_space}
use tls_fetch_mcp.Text.Number.{parse_int}
use tls_fetch_mcp.Text.Split.{split}
use tls_fetch_mcp.Table.{Table, insert}
use tls_fetch_mcp.Errors.{
  Result, ok, ◌>>=◌, ◌>>◌, fail_if, empty_header_name, managed_header, header_newline,
}

abbrev pub forbidden_request_headers : List Bytes
forbidden_request_headers =
    ascii "connection"
    ∷ ascii "content-length"
    ∷ ascii "host"
    ∷ ascii "keep-alive"
    ∷ ascii "proxy-connection"
    ∷ ascii "te"
    ∷ ascii "trailer"
    ∷ ascii "transfer-encoding"
    ∷ ascii "upgrade"
    ∷ []

-- The name as the checks read it.
unfoldable pub plain_name : Unicode → Bytes → Bytes
unfolding to_lower trim_space
plain_name u name = to_lower u (trim_space name)

unfoldable pub is_forbidden : Bytes → Bool
unfolding eq_bytes
is_forbidden name = one_of name forbidden_request_headers

-- `strings.ContainsAny(s, "\r\n")`.
unfoldable pub has_newline : Bytes → Bool
has_newline [] = false
has_newline (c ∷ s) = c == 13 || c == 10 || has_newline s

-- The first part that `strconv.Atoi` reads.
unfoldable pub first_number : Bytes → List Bytes → Bytes
unfolding parse_int
first_number fallback [] = fallback
first_number fallback (part ∷ parts) = elim (parse_int part) [
  | some n ↦ part
  | none ↦ first_number fallback parts
]

unfoldable pub profile_version : Bytes → Bytes → Bytes
unfolding first_number split
profile_version profile fallback = first_number fallback (split b'_' profile)

unfoldable pub user_agent : Bytes → Bytes
unfolding profile_version has_prefix
user_agent profile =
    if has_prefix profile (ascii "firefox_")
    then (let version = profile_version profile (ascii "148") in
        ascii "Mozilla/5.0 (Macintosh; Intel Mac OS X 10.15; rv:"
        ++ version
        ++ ascii ".0) Gecko/20100101 Firefox/"
        ++ version
        ++ ascii ".0")
    else if has_prefix profile (ascii "safari_")
    then ascii
        "Mozilla/5.0 (Macintosh; Intel Mac OS X 10_15_7) AppleWebKit/605.1.15 (KHTML, like Gecko) Version/18.5 Safari/605.1.15"
    else if has_prefix profile (ascii "chrome_") || has_prefix profile (ascii "brave_")
    then ascii
        "Mozilla/5.0 (Macintosh; Intel Mac OS X 10_15_7) AppleWebKit/537.36 (KHTML, like Gecko) Chrome/"
      ++ profile_version profile (ascii "146")
      ++ ascii ".0.0.0 Safari/537.36"
    else ascii
        "Mozilla/5.0 (Macintosh; Intel Mac OS X 10_15_7) AppleWebKit/537.36 (KHTML, like Gecko) Chrome/146.0.0.0 Safari/537.36"

unfoldable pub default_headers : Bytes → Table Bytes
unfolding user_agent
default_headers profile =
    (ascii "Accept", ascii "*/*")
    ∷ (ascii "Accept-Language", ascii "en-US,en;q=0.9")
    ∷ (ascii "Cache-Control", ascii "no-cache")
    ∷ (ascii "User-Agent", user_agent profile)
    ∷ []

abbrev pub default_order : List Bytes
default_order =
    ascii "accept" ∷ ascii "accept-language" ∷ ascii "cache-control" ∷ ascii "user-agent" ∷ []

abbrev pub order_or_default : List Bytes → List Bytes
order_or_default [] = default_order
order_or_default (name ∷ order) = name ∷ order

module _ (canonical : Bytes → Bytes) where
  -- The loop over the default headers.
  unfoldable pub set_all : Table Bytes → Table Bytes → Table Bytes
  unfolding insert
  set_all headers [] = headers
  set_all headers ((name, value) ∷ rest) = set_all (insert (canonical name) value headers) rest

module _ (u : Unicode) where
  -- The checks on one header.
  unfoldable pub check_header : Bytes → Bytes → Result (Unit {0})
  check_header name value = do
    fail_if (eq_bytes (plain_name u name) []) empty_header_name
    fail_if (is_forbidden (plain_name u name)) (managed_header name)
    fail_if (has_newline name || has_newline value) header_newline

  abbrev keep_name : Bytes → List Bytes → List Bytes
  keep_name [] names = names
  keep_name (c ∷ name) names = (c ∷ name) ∷ names

  -- The loop that normalizes the order.
  unfoldable pub plain_order : List Bytes → List Bytes
  unfolding plain_name
  plain_order [] = []
  plain_order (name ∷ order) = keep_name (plain_name u name) (plain_order order)

  module _ (canonical : Bytes → Bytes) where
    -- The loop over the headers that the caller supplies.
    unfoldable pub set_supplied : Table Bytes → Table Bytes → Result (Table Bytes)
    unfolding check_header
    set_supplied headers [] = ok headers
    set_supplied headers ((name, value) ∷ rest) =
        check_header name value >> set_supplied (insert (canonical name) value headers) rest

    -- The headers, each with its one value, and their order.
    unfoldable pub set_headers :
        Table Bytes → List Bytes → Bytes → Result (Table Bytes × List Bytes)
    unfolding set_all set_supplied default_headers plain_order
    set_headers supplied order profile =
        set_supplied (set_all canonical [] (default_headers profile)) supplied >>= λ headers.
        ok (headers, plain_order (order_or_default order))
