-- ===== src/Request/Headers/Allowed.antt =====
-- setHeaders of internal/fetch/fetch.go: which headers it accepts, and what the request then carries.
use tls_fetch_mcp.Common.{
  All, List, Option, [], ap, arith, false, if◌then◌else◌, inl, inr, none, refl, some, sym, ◌↔◌, ◌∙◌,
  ◌∷◌, ◌≡◌, ◌≢◌,
}
use tls_fetch_mcp.Text.{one_of, Bytes, eq_bytes, eq_bytes_iff, eq_bytes→eq}
use tls_fetch_mcp.Text.Case.{Unicode}
use tls_fetch_mcp.Table.{Table, lookup, insert}
use tls_fetch_mcp.Table.Laws.{lookup-insert}
use tls_fetch_mcp.Errors.{ok, Result-cases}
use tls_fetch_mcp.Request.Headers.{
  plain_name, forbidden_request_headers, is_forbidden, has_newline, default_headers, check_header,
  set_all, set_supplied, set_headers, plain_order, order_or_default,
}

-- No carriage return and no line feed.
abbrev pub OnOneLine : Bytes → Type 0
OnOneLine s = All (λ c. (c ≢ 13) × (c ≢ 10)) s

has_newline→OnOneLine : (s : Bytes) → has_newline s ≡ false → OnOneLine s
unfolding has_newline
has_newline→OnOneLine [] h = tt
has_newline→OnOneLine (c ∷ s) h =
    (((λ e. ground arith), (λ e. ground arith)), has_newline→OnOneLine s (ground arith))

has_newline_of_OnOneLine : (s : Bytes) → OnOneLine s → has_newline s ≡ false
unfolding has_newline
has_newline_of_OnOneLine [] h = refl
has_newline_of_OnOneLine (c ∷ s) h = ground (arith, h.0.0, h.0.1, has_newline_of_OnOneLine s h.1)

module _ (u : Unicode) where
  -- The name is not blank and not one that the HTTP client manages, and neither it nor the value breaks
  -- the line.
  pub record IsAllowed (header : Bytes × Bytes) : Type 0 where
    pub named : plain_name u header.0 ≢ []
    pub unmanaged : one_of (plain_name u header.0) forbidden_request_headers ≡ false
    pub one_line : OnOneLine header.0 × OnOneLine header.1

  check_header-IsAllowed :
      (name value : Bytes) → check_header u name value ≡ ok tt → IsAllowed (name, value)
  unfolding check_header is_forbidden
  check_header-IsAllowed name value h = record {
    named = λ e. ground (arith, eq_bytes_iff (plain_name u name) []);
    unmanaged = ground arith;
    one_line =
        (has_newline→OnOneLine name (ground arith), has_newline→OnOneLine value (ground arith));
  }

  IsAllowed-check_header :
      (name value : Bytes) → IsAllowed (name, value) → check_header u name value ≡ ok tt
  unfolding check_header is_forbidden
  IsAllowed-check_header name value a = ground (
    arith,
    eq_bytes→eq (plain_name u name) [],
    a.named,
    a.unmanaged,
    has_newline_of_OnOneLine name a.one_line.0,
    has_newline_of_OnOneLine value a.one_line.1,
  )

  module _ (canonical : Bytes → Bytes) where
    -- The value that the last assignment to the header gives, or else the one that was there.
    abbrev pub assigned : Bytes → Option Bytes → Table Bytes → Option Bytes
    assigned name before [] = before
    assigned name before ((n, value) ∷ rest) =
        assigned name (if eq_bytes name (canonical n) then some value else before) rest

    set_all-lookup :
        (name : Bytes) (headers rest : Table Bytes)
        → lookup name (set_all canonical headers rest) ≡ assigned name (lookup name headers) rest
    unfolding set_all
    set_all-lookup name headers [] = refl
    set_all-lookup name headers ((n, value) ∷ rest) =
        set_all-lookup name (insert (canonical n) value headers) rest
        ∙ ap (λ o. assigned name o rest) (lookup-insert (canonical n) name value headers)

    set_supplied_sound :
        (headers rest out : Table Bytes)
        → set_supplied u canonical headers rest ≡ ok out
        → All IsAllowed rest × (out ≡ set_all canonical headers rest)
    unfolding set_supplied set_all
    set_supplied_sound headers [] out h = (tt, ground arith)
    set_supplied_sound headers ((n, value) ∷ rest) out h =
        elim (Result-cases (check_header u n value)) [
          | inr (e, q) ↦ absurd (ground arith)
          | inl (t, q) ↦
              let (a, e) =
                set_supplied_sound (insert (canonical n) value headers) rest out (ground arith) in
              ((check_header-IsAllowed n value q, a), e)
        ]

    set_supplied_complete :
        (headers rest : Table Bytes)
        → All IsAllowed rest
        → set_supplied u canonical headers rest ≡ ok (set_all canonical headers rest)
    unfolding set_supplied set_all
    set_supplied_complete headers [] a = refl
    set_supplied_complete headers ((n, value) ∷ rest) a =
        rw (IsAllowed-check_header n value a.0)
          (set_supplied_complete (insert (canonical n) value headers) rest a.1)

    -- `setHeaders` accepts the supplied headers exactly when each name, trimmed and lowered, is neither empty
    -- nor one that the HTTP client manages, and no name and no value holds a carriage return or a line feed.
    pub set_headers_iff :
        (supplied : Table Bytes) (order : List Bytes) (profile : Bytes)
        → ((out : Table Bytes × List Bytes) × (set_headers u canonical supplied order profile
              ≡ ok out))
          ↔ All IsAllowed supplied
    unfolding set_headers
    set_headers_iff supplied order profile =
        let start = set_all canonical [] (default_headers profile) in
        (
          (λ (out, h). elim (Result-cases (set_supplied u canonical start supplied)) [
            | inl (headers, e) ↦ (set_supplied_sound start supplied headers e).0
            | inr (e, q) ↦ absurd (ground arith)
          ]),
          (λ a. (
            (set_all canonical start supplied, plain_order u (order_or_default order)),
            rw (set_supplied_complete start supplied a, set_headers) refl,
          )),
        )

    -- Once `setHeaders` accepts, the request carries, under each name, the value of the last supplied header that the library
    -- spells that way, or else the default header of the profile, and no other header.
    pub set_headers-lookup :
        (supplied : Table Bytes) (order : List Bytes) (profile : Bytes) (headers : Table Bytes)
        (names : List Bytes)
        → set_headers u canonical supplied order profile ≡ ok (headers, names)
        → (name : Bytes)
        → lookup name headers
          ≡ assigned name (assigned name none (default_headers profile)) supplied
    unfolding set_headers lookup
    set_headers-lookup supplied order profile headers names h name =
        let start = set_all canonical [] (default_headers profile) in
        elim (Result-cases (set_supplied u canonical start supplied)) [
          | inr (e, q) ↦ absurd (ground arith)
          | inl (out, e) ↦
              let same : out ≡ headers = ground arith in
              let built = (set_supplied_sound start supplied out e).1 in
              ap (lookup name) (sym same ∙ built)
              ∙ (set_all-lookup name start supplied
                  ∙ ap (λ o. assigned name o supplied)
                      (set_all-lookup name [] (default_headers profile)))
        ]
