-- ===== src/Extract/Fit/Shorter.antt =====
-- The JSON text of fewer values in internal/fetch/extract.go is not longer.
use tls_fetch_mcp.Common.{
  All, Bool, Bool-cases, List, [], arith, false, inl, inr, length, length-append, length-take, ltb,
  ltb→lt, map, suc, take, true, zero, ℕ, ◌+◌, ◌-◌, ◌∷◌, ◌≡◌, ◌≤◌,
}
use tls_fetch_mcp.Text.{Bytes, ascii}
use tls_fetch_mcp.Text.Decimal.{decimal, decimal_len, decimal_len_mono}
use tls_fetch_mcp.Text.Json.{quote, member, bool_text, array, commas}
use tls_fetch_mcp.Text.Json.Size.{weight, length-commas, length-object, length-member}
use tls_fetch_mcp.Extract.Types.{ExtractedValue, QueryResult}
use tls_fetch_mcp.Extract.Fit.{value_text, values_text, result_text, results_text, shortened}
use tls_fetch_mcp.Extract.Fit.Removed.{kept, keep}

length-array : (ts : List Bytes) → length (array ts) ≡ weight ts - 1 + 2
unfolding commas
length-array [] = omega arith
length-array (t ∷ ts) =
    omega (arith, length-append (commas (t ∷ ts)) (ascii "]"), length-commas t ts)

weight-take :
    (f : ExtractedValue → Bytes) (n : ℕ) (values : List ExtractedValue)
    → weight (map f (take n values)) ≤ weight (map f values)
weight-take f zero values = omega arith
weight-take f (suc n) [] = omega arith
weight-take f (suc n) (v ∷ values) = omega (arith, weight-take f n values)

values_shorter :
    (n : ℕ) (values : List ExtractedValue)
    → length (values_text (take n values)) ≤ length (values_text values)
unfolding values_text
values_shorter n values = omega (
  arith,
  length-array (map value_text (take n values)),
  length-array (map value_text values),
  weight-take value_text n values,
)

-- A result counts its values.
abbrev pub IsCounted : QueryResult → Type 0
IsCounted r = r.returned_count ≡ length r.values

-- What a cut leaves alone: some members, and the names of the others.
abbrev fixed_weight : QueryResult → ℕ
fixed_weight r =
    weight (
      member (ascii "name") (quote r.name)
      ∷ member (ascii "selector") (quote r.selector)
      ∷ member (ascii "mode") (quote r.mode)
      ∷ member (ascii "matched_count") (decimal r.matched_count)
      ∷ [])
    + length (quote (ascii "values"))
    + length (quote (ascii "returned_count"))
    + length (quote (ascii "limited"))

length-result_text :
    (r : QueryResult)
    → length (result_text r)
      ≡ fixed_weight r
        + length (values_text r.values)
        + decimal_len r.returned_count
        + length (bool_text r.limited)
        + 7
unfolding result_text decimal_len
length-result_text r = omega (
  arith,
  length-object (member (ascii "name") (quote r.name)) (
      member (ascii "selector") (quote r.selector)
      ∷ member (ascii "mode") (quote r.mode)
      ∷ member (ascii "values") (values_text r.values)
      ∷ member (ascii "matched_count") (decimal r.matched_count)
      ∷ member (ascii "returned_count") (decimal r.returned_count)
      ∷ member (ascii "limited") (bool_text r.limited)
      ∷ []),
  length-member (ascii "values") (values_text r.values),
  length-member (ascii "returned_count") (decimal r.returned_count),
  length-member (ascii "limited") (bool_text r.limited),
)

pub true_shortest : (b : Bool) → length (bool_text true) ≤ length (bool_text b)
true_shortest true = omega arith
true_shortest false = omega arith

shortened_shorter :
    (n : ℕ) (r : QueryResult)
    → IsCounted r
    → n ≤ length r.values
    → length (result_text (shortened r (take n r.values))) ≤ length (result_text r)
shortened_shorter n r c h =
    let q : QueryResult = shortened r (take n r.values) in
    omega (
      arith,
      length-result_text q,
      length-result_text r,
      values_shorter n r.values,
      decimal_len_mono (length (take n r.values)) r.returned_count
          (omega (arith, length-take n r.values)),
      true_shortest r.limited,
    )

kept_shorter :
    (n : ℕ) (r : QueryResult)
    → IsCounted r
    → length (result_text (kept n r)) ≤ length (result_text r)
unfolding kept
kept_shorter n r c = elim (Bool-cases (ltb n (length r.values))) [
  | inl cut ↦ rw cut (shortened_shorter n r c (omega (arith, ltb→lt n (length r.values) cut)))
  | inr whole ↦ rw whole (omega arith)
]

weight-keep :
    (n : ℕ) (rs : List QueryResult)
    → All IsCounted rs
    → weight (map result_text (keep n rs)) ≤ weight (map result_text rs)
unfolding keep
weight-keep n [] c = omega arith
weight-keep n (r ∷ rs) c =
    omega (arith, kept_shorter n r c.0, weight-keep (n - length r.values) rs c.1)

-- The text of results that are cut is not longer.
pub results_shorter :
    (n : ℕ) (rs : List QueryResult)
    → All IsCounted rs
    → length (results_text (keep n rs)) ≤ length (results_text rs)
unfolding results_text
results_shorter n rs c = omega (
  arith,
  length-array (map result_text (keep n rs)),
  length-array (map result_text rs),
  weight-keep n rs c,
)
