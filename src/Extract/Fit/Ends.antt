-- ===== src/Extract/Fit/Ends.antt =====
-- fitExtractionOutput of internal/fetch/extract.go ends, however long the texts are.
use tls_fetch_mcp.Common.{
  Bool-cases, List, List-cases, Option, Option-cases, [], ap, arith, false, inl, inr, leb_ℤ, length,
  length-take, none, pos, refl, some, suc, sym, take, true, zero, ℕ, ℤ, ◌-◌, ◌<◌, ◌∙◌, ◌∷◌, ◌≡◌,
  ◌⊎◌,
}
use tls_fetch_mcp.Errors.{Result, ok, err, output_too_small}
use tls_fetch_mcp.Extract.Types.{QueryResult, ExtractOutput}
use tls_fetch_mcp.Extract.Fit.{
  output_text, is_size, size_from, output_size, shortened, remove_last, remove_value, fit_on,
  value_count, fit_output,
}

size_from-results :
    (rounds : ℕ) (previous : Option ℕ) (o : ExtractOutput)
    → (size_from rounds previous o).0.results ≡ o.results
unfolding size_from
size_from-results zero previous o = refl
size_from-results (suc rounds) previous o =
    let size = length (output_text o) in
    elim (Bool-cases (is_size previous size)) [
      | inl e ↦ rw (e, size_from) refl
      | inr e ↦
          rw (e, size_from)
            (size_from-results rounds (some size) (record o { output_bytes = size }))
    ]

-- A removal takes one value.
value_count-remove :
    (rs rest : List QueryResult)
    → remove_last rs ≡ some rest
    → value_count rs ≡ suc (value_count rest)
unfolding remove_last value_count
value_count-remove [] rest h = cc
value_count-remove (r ∷ rs) rest h = elim (Option-cases (remove_last rs)) [
  | inr (tail, e) ↦
      let shape : r ∷ tail ≡ rest = ground arith in
      rw (sym shape) (omega (arith, value_count-remove rs tail e))
  | inl e ↦ elim (List-cases r.values) [
    | inl v ↦ absurd (ground arith)
    | inr (x, xs, v) ↦
        let shape : shortened r (take (length xs) (x ∷ xs)) ∷ rs ≡ rest = ground arith in
        rw (sym shape) (omega (arith, ap length v, length-take (length xs) (x ∷ xs)))
  ]
]

-- A round behind the measurement.
abbrev pub round_on : ℕ → ℤ → ExtractOutput × ℕ → Option (Result ExtractOutput)
round_on fuel max_bytes (sized, size) = elim (leb_ℤ (pos size) max_bytes) [
  | true ↦ some (ok (record sized { output_bytes = size }))
  | false ↦ elim (remove_value sized) [
    | none ↦ some (err (output_too_small max_bytes))
    | some smaller ↦ fit_on fuel smaller max_bytes
  ]
]

pub fit_round :
    (fuel : ℕ) (o : ExtractOutput) (max_bytes : ℤ)
    → fit_on (suc fuel) o max_bytes ≡ round_on fuel max_bytes (output_size o)
unfolding fit_on
fit_round fuel o max_bytes = refl

output_size-results : (o : ExtractOutput) → (output_size o).0.results ≡ o.results
unfolding output_size
output_size-results o = size_from-results 4 none o

remove_value-cases :
    (o : ExtractOutput)
    → (remove_value o ≡ none)
      ⊎ ((smaller : ExtractOutput) × (remove_value o ≡ some smaller)
          × (value_count o.results ≡ suc (value_count smaller.results)))
unfolding remove_value
remove_value-cases o = elim (Option-cases (remove_last o.results)) [
  | inl e ↦ inl (rw (e, remove_value) refl)
  | inr (rest, e) ↦ inr (
    record o { results = rest; returned_count = o.returned_count - 1; limited = true },
    rw (e, remove_value) refl,
    value_count-remove o.results rest e,
  )
]

-- The loop ends on more fuel than there are values.
fit_on_ends :
    (fuel : ℕ) (o : ExtractOutput) (max_bytes : ℤ)
    → value_count o.results < fuel
    → (r : Result ExtractOutput) × (fit_on fuel o max_bytes ≡ some r)
fit_on_ends zero o max_bytes h = absurd (omega arith)
fit_on_ends (suc fuel) o max_bytes h =
    let sized = output_size o in
    let same : value_count sized.0.results ≡ value_count o.results =
      ap value_count (output_size-results o) in
    elim (Bool-cases (leb_ℤ (pos sized.1) max_bytes)) [
      | inl e ↦ (
        ok (record sized.0 { output_bytes = sized.1 }),
        fit_round fuel o max_bytes ∙ rw (e, round_on) refl,
      )
      | inr e ↦ elim (remove_value-cases sized.0) [
        | inl q ↦ (
          err (output_too_small max_bytes),
          fit_round fuel o max_bytes ∙ rw (e, round_on) (rw (q, round_on) refl),
        )
        | inr (smaller, q, less) ↦
            let (r, f) = fit_on_ends fuel smaller max_bytes (omega arith) in
            (r, fit_round fuel o max_bytes ∙ rw (e, round_on) (rw (q, round_on) f))
      ]
    ]

-- Whatever the output and the limit, the removal of values ends, with an output or an error.
pub fit_output_ends :
    (o : ExtractOutput) (max_bytes : ℤ)
    → (r : Result ExtractOutput) × (fit_output o max_bytes ≡ some r)
unfolding fit_output
fit_output_ends o max_bytes = fit_on_ends (suc (value_count o.results)) o max_bytes (omega arith)
