-- ===== src/Extract/Fit.antt =====
-- The end of `ExtractResponse` of internal/fetch/extract.go: the output's JSON text, its size, and the
-- removal of values until the text fits.
pub mod Removed
pub mod Size
pub mod Shorter
pub mod Fitted
pub mod Ends
use tls_fetch_mcp.Common.{
  Bool, List, Option, [], false, leb_ℤ, length, map, none, pos, some, suc, take, true, zero, ℕ, ℤ,
  ◌+◌, ◌-◌, ◌==◌, ◌∷◌,
}
use tls_fetch_mcp.Text.{Bytes, ascii}
use tls_fetch_mcp.Text.Decimal.{decimal}
use tls_fetch_mcp.Text.Json.{quote, bool_text, commas, array, member, optional_member, object}
use tls_fetch_mcp.Errors.{Result, ok, err, output_too_small}
use tls_fetch_mcp.Extract.Types.{ExtractedValue, QueryResult, ExtractOutput}

unfoldable pub value_text : ExtractedValue → Bytes
unfolding quote commas
value_text v = object (
    member (ascii "value") (quote v.value)
    ∷ member (ascii "encoding") (quote v.encoding)
    ∷ optional_member (ascii "path") v.path [])

unfoldable pub values_text : List ExtractedValue → Bytes
unfolding value_text
values_text values = array (map value_text values)

unfoldable pub result_text : QueryResult → Bytes
unfolding quote commas values_text decimal
result_text r = object (
    member (ascii "name") (quote r.name)
    ∷ member (ascii "selector") (quote r.selector)
    ∷ member (ascii "mode") (quote r.mode)
    ∷ member (ascii "values") (values_text r.values)
    ∷ member (ascii "matched_count") (decimal r.matched_count)
    ∷ member (ascii "returned_count") (decimal r.returned_count)
    ∷ member (ascii "limited") (bool_text r.limited)
    ∷ [])

unfoldable pub results_text : List QueryResult → Bytes
unfolding result_text
results_text results = array (map result_text results)

-- The members behind the results.
unfoldable pub total_members : ExtractOutput → List Bytes
unfolding quote results_text decimal
total_members o =
    member (ascii "results") (results_text o.results)
    ∷ member (ascii "returned_count") (decimal o.returned_count)
    ∷ member (ascii "limited") (bool_text o.limited)
    ∷ member (ascii "output_bytes") (decimal o.output_bytes)
    ∷ []

-- `json.Marshal` of the output.
unfoldable pub output_text : ExtractOutput → Bytes
unfolding total_members
output_text o = object (
    member (ascii "response_id") (quote o.response_id)
    ∷ member (ascii "format") (quote o.format)
    ∷ optional_member (ascii "content_type") o.content_type (
        optional_member (ascii "final_url") o.final_url (
          member (ascii "source_bytes") (decimal o.source_bytes)
          ∷ member (ascii "source_truncated") (bool_text o.source_truncated)
          ∷ total_members o)))

-- The size is the one before; there is none before the first round.
abbrev pub is_size : Option ℕ → ℕ → Bool
is_size none size = false
is_size (some previous) size = size == previous

-- The rounds of `extractionOutputSize`, given the size before: the output with the number of bytes that it
-- notes in itself, and the size. `json.Marshal` of such an output does not fail.
unfoldable pub size_from : ℕ → Option ℕ → ExtractOutput → ExtractOutput × ℕ
size_from zero previous o = (o, length (output_text o))
size_from (suc rounds) previous o =
    let size = length (output_text o) in
    elim (is_size previous size) [
      | true ↦ (o, size)
      | false ↦ size_from rounds (some size) (record o { output_bytes = size })
    ]

-- `extractionOutputSize`.
unfoldable pub output_size : ExtractOutput → ExtractOutput × ℕ
unfolding size_from
output_size o = size_from 4 none o

abbrev pub shortened : QueryResult → List ExtractedValue → QueryResult
shortened r values = record r { values = values; returned_count = length values; limited = true }

-- Removes the last value of the last result that has one; `none` if no result has.
unfoldable pub remove_last : List QueryResult → Option (List QueryResult)
remove_last [] = none
remove_last (r ∷ rs) = elim (remove_last rs) [
  | some rest ↦ some (r ∷ rest)
  | none ↦ elim r.values [
    | [] ↦ none
    | v ∷ values ↦ some (shortened r (take (length values) (v ∷ values)) ∷ rs)
  ]
]

-- A round of the loop of `fitExtractionOutput` behind the size.
abbrev pub removed_from : ExtractOutput → Option (List QueryResult) → Option ExtractOutput
removed_from o none = none
removed_from o (some results) =
    some (record o { results = results; returned_count = o.returned_count - 1; limited = true })

unfoldable pub remove_value : ExtractOutput → Option ExtractOutput
unfolding remove_last
remove_value o = removed_from o (remove_last o.results)

-- `fitExtractionOutput`, with fuel for the rounds; `none` means that it ran out.
unfoldable pub fit_on : ℕ → ExtractOutput → ℤ → Option (Result ExtractOutput)
fit_on zero o max_bytes = none
fit_on (suc fuel) o max_bytes =
    let (sized, size) = output_size o in
    elim (leb_ℤ (pos size) max_bytes) [
      | true ↦ some (ok (record sized { output_bytes = size }))
      | false ↦ elim (remove_value sized) [
        | none ↦ some (err (output_too_small max_bytes))
        | some smaller ↦ fit_on fuel smaller max_bytes
      ]
    ]

-- The values that are there to be removed.
unfoldable pub value_count : List QueryResult → ℕ
value_count [] = 0
value_count (r ∷ rs) = length r.values + value_count rs

-- `fitExtractionOutput`. A round more than there are values is allowed.
unfoldable pub fit_output : ExtractOutput → ℤ → Option (Result ExtractOutput)
unfolding fit_on value_count
fit_output o max_bytes = fit_on (suc (value_count o.results)) o max_bytes
