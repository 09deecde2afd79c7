-- ===== src/Extract/Whole/Tests.antt =====
-- The output of internal/fetch/extract.go cut to a limit, at a concrete page.
use tls_fetch_mcp.Common.{Option, [], arith, map, pos, refl, subst, sym, ℕ, ◌<◌, ◌∙◌, ◌∷◌, ◌≡◌, ◌≤◌}
use mathlib.Core.Option.{some}
use tls_fetch_mcp.Text.{ascii}
use tls_fetch_mcp.Text.Case.{ascii_only}
use tls_fetch_mcp.Errors.{Result, ok, Ensures}
use tls_fetch_mcp.Extract.Types.{ExtractOutput}
use tls_fetch_mcp.Extract.Queries.{trimmed}
use tls_fetch_mcp.Extract.Fit.{fit_output, output_size}
use tls_fetch_mcp.Extract.Fit.Size.{bare_len, Measures, output_size-Measures}
use tls_fetch_mcp.Extract.Fit.Fitted.{AreCounted, Fits, fit_output-Fits}
use tls_fetch_mcp.Extract.Whole.{FitsMachine, IsDelivery, extract_record-IsDelivery}
use tls_fetch_mcp.Text.Decimal.{decimal_len}
use tls_fetch_mcp.Extract.{full_output, Plan, extract_plan, extract_results, extract_record}
use tls_fetch_mcp.Extract.Tests.{program, parsers, page, page_input, page_results, links, texts}

abbrev page_output : ExtractOutput
page_output = full_output page_input page (ascii "html") page_results

page_len : bare_len page_output ≡ 583
unfolding program
page_len = refl

page_AreCounted : AreCounted page_output
unfolding program
page_AreCounted = ((refl, (refl, tt)), refl)

few_digits : decimal_len page_output.output_bytes ≤ 20
unfolding program
few_digits = omega arith

output_size-Measures_example : Measures page_output (output_size page_output)
output_size-Measures_example = output_size-Measures page_output few_digits (omega (arith, page_len))

fit_output-Fits_example :
    (r : Result ExtractOutput) × (fit_output page_output (pos 540) ≡ some r)
    × Fits page_output (pos 540) r
fit_output-Fits_example =
    fit_output-Fits page_output (pos 540) page_AreCounted refl (omega (arith, page_len))

abbrev shape : Option (Result ExtractOutput) → ℕ × ℕ
shape (some (ok g)) = (g.returned_count, g.output_bytes)
shape other = (0, 0)

-- Of four values, the last two had to go.
page_fits : shape (extract_record parsers (pos 1024) page_input page) ≡ (2, 514)
unfolding program
page_fits = refl

abbrev page_plan : Plan
page_plan = record {
  queries = map (trimmed ascii_only) (links ∷ texts ∷ []);
  max_results = 2;
  max_bytes = pos 540;
  format = ascii "html";
}

page_planned : extract_plan parsers (pos 1024) page_input page ≡ ok page_plan
unfolding program
page_planned = refl

page_answered : extract_results parsers page page_plan ≡ ok page_results
unfolding program
page_answered = refl

ok_injective : {A : Type 0} {a b : A} → ok a ≡ ok b → a ≡ b
ok_injective e = ground arith

page_FitsMachine : FitsMachine parsers (pos 1024) page_input page
page_FitsMachine plan results p q =
    let e : page_plan ≡ plan = ok_injective (sym page_planned ∙ p) in
    let f : page_results ≡ results =
      ok_injective
        (sym page_answered ∙ subst (λ x. extract_results parsers page x ≡ ok results) (sym e) q) in
    subst (λ x. bare_len (full_output page_input page x.format results) < 99999999999999999000) e
      (subst (λ rs. bare_len (full_output page_input page (ascii "html") rs) < 99999999999999999000)
        f (omega (arith, page_len)))

extract_record-IsDelivery_example :
    (r : Result ExtractOutput) × (extract_record parsers (pos 1024) page_input page ≡ some r)
    × Ensures (IsDelivery parsers (pos 1024) page_input page) r
extract_record-IsDelivery_example =
    extract_record-IsDelivery parsers (pos 1024) page_input page page_FitsMachine
