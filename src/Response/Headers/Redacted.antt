-- ===== src/Response/Headers/Redacted.antt =====
-- sanitizeResponseHeaders of internal/fetch/response_store.go.
use tls_fetch_mcp.Common.{
  Bool-cases, List, Option, [], arith, if◌then◌else◌, inl, inr, none, refl, some, sym, ◌++◌, ◌∙◌,
  ◌∷◌, ◌≡◌,
}
use mathlib.Core.List.{Perm, append-nil, append_assoc}
use mathlib.Core.Path.{subst}
use tls_fetch_mcp.Text.{one_of, Bytes, eq_bytes_iff}
use tls_fetch_mcp.Text.Case.{Unicode, to_lower}
use tls_fetch_mcp.Table.{Table, lookup, insert, Distinct}
use tls_fetch_mcp.Table.Laws.{lookup-insert}
use tls_fetch_mcp.Response.Headers.{
  is_sensitive, sensitive_response_headers, sanitize_from, sort_case_insensitive,
  sanitize_response_headers,
}
use tls_fetch_mcp.Response.Headers.Sorted.{Ascending, sort_case_insensitive-Ascending}

module _ (u : Unicode) where
  -- The names of the headers to redact, in the order of the table.
  abbrev pub sensitive_names : Table (List Bytes) → List Bytes
  sensitive_names [] = []
  sensitive_names ((name, values) ∷ headers) =
      let rest = sensitive_names headers in if is_sensitive u name then name ∷ rest else rest

  -- The first, or else the second.
  abbrev first : Option (List Bytes) → Option (List Bytes) → Option (List Bytes)
  first none o = o
  first (some values) o = some values

  first-none : (o : Option (List Bytes)) → first o none ≡ o
  first-none none = refl
  first-none (some values) = refl

  sanitize_from-lookup :
      (name : Bytes) (safe : Table (List Bytes)) (redacted : List Bytes)
      (headers : Table (List Bytes))
      → Distinct headers
      → lookup name (sanitize_from u safe redacted headers).0 ≡ (
          if is_sensitive u name
          then lookup name safe
          else first (lookup name headers) (lookup name safe))
  unfolding sanitize_from lookup
  sanitize_from-lookup name safe redacted [] d = ground arith
  sanitize_from-lookup name safe redacted ((n, values) ∷ headers) d =
      elim (Bool-cases (is_sensitive u n)) [
        | inl e ↦ ground (
          arith,
          sanitize_from-lookup name safe (redacted ++ (n ∷ [])) headers d.1,
          eq_bytes_iff name n,
        )
        | inr e ↦ ground (
          arith,
          sanitize_from-lookup name (insert n values safe) redacted headers d.1,
          lookup-insert n name values safe,
          eq_bytes_iff name n,
        )
      ]

  clean :
      (name : Bytes) (headers : Table (List Bytes))
      → (if is_sensitive u name
          then lookup name []
          else first (lookup name headers) (lookup name []))
        ≡ (if is_sensitive u name then none else lookup name headers)
  unfolding lookup
  clean name headers = rw (first-none (lookup name headers))

  sanitize_from-redacted :
      (safe : Table (List Bytes)) (redacted : List Bytes) (headers : Table (List Bytes))
      → (sanitize_from u safe redacted headers).1 ≡ redacted ++ sensitive_names headers
  unfolding sanitize_from
  sanitize_from-redacted safe redacted [] = sym (append-nil redacted)
  sanitize_from-redacted safe redacted ((n, values) ∷ headers) =
      elim (Bool-cases (is_sensitive u n)) [
        | inl e ↦
            rw (e, sanitize_from)
              (sanitize_from-redacted safe (redacted ++ (n ∷ [])) headers
                ∙ append_assoc redacted (n ∷ []) (sensitive_names headers))
        | inr e ↦
            rw (e, sanitize_from) (sanitize_from-redacted (insert n values safe) redacted headers)
      ]

  -- Of headers whose names differ from each other, those with a sensitive name, whatever its case, are
  -- absent from the result, every other one is there with its values, and nothing else is; the redacted
  -- names are those of the headers left out, each once, in order when lowered.
  pub sanitize_response_headers_lem :
      (headers : Table (List Bytes))
      → Distinct headers
      → ((name : Bytes)
          → lookup name (sanitize_response_headers u headers).0 ≡ (
              if one_of (to_lower u name) sensitive_response_headers
              then none
              else lookup name headers))
        × Ascending u (sanitize_response_headers u headers).1
        × Perm (sanitize_response_headers u headers).1 (sensitive_names headers)
  unfolding sanitize_response_headers is_sensitive
  sanitize_response_headers_lem headers d =
      let kept : (name : Bytes)
          → lookup name (sanitize_from u [] [] headers).0 ≡ (
              if one_of (to_lower u name) sensitive_response_headers
              then none
              else lookup name headers) =
        λ name. sanitize_from-lookup name [] [] headers d ∙ clean name headers in
      let redacted = (sanitize_from u [] [] headers).1 in
      let (sorted, same) = sort_case_insensitive-Ascending u redacted in
      (
        (λ name. kept name),
        sorted,
        subst (λ l. Perm (sort_case_insensitive u redacted) l)
            (sanitize_from-redacted [] [] headers) same,
      )
