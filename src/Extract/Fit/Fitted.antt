-- ===== src/Extract/Fit/Fitted.antt =====
-- fitExtractionOutput of internal/fetch/extract.go: the loop ends, and what it returns fits.
use tls_fetch_mcp.Common.{
  All, Bool, Option, ap, arith, false, inl, inr, leb_ℤ, length, ltb, ltb_ℤ-cases, none, pos, refl,
  some, suc, sym, true, zero, ℕ, ℤ, ◌-◌, ◌<ℤ◌, ◌<◌, ◌||◌, ◌∙◌, ◌≡◌, ◌≤ℤ◌, ◌≤◌,
}
use tls_fetch_mcp.Text.Decimal.{decimal_len, decimal_len_mono, decimal_len-digit, decimal_len_bound}
use tls_fetch_mcp.Text.Json.{bool_text}
use tls_fetch_mcp.Errors.{Result, ok, err, output_too_small}
use tls_fetch_mcp.Extract.Types.{ExtractOutput}
use tls_fetch_mcp.Extract.Fit.{
  output_text, output_size, remove_value, removed_from, fit_on, value_count, fit_output,
}
use tls_fetch_mcp.Extract.Fit.Ends.{round_on, fit_round}
use tls_fetch_mcp.Extract.Fit.Removed.{keep, keep_all, remove-none, remove-keep}
use tls_fetch_mcp.Extract.Fit.Shorter.{IsCounted, results_shorter}
use tls_fetch_mcp.Extract.Fit.Size.{bare_len, with_bytes, output_size-Measures}

-- The output with the first so many values of all.
abbrev pub cut : ℕ → ExtractOutput → ExtractOutput
cut n o = record o {
  results = keep n o.results;
  returned_count = n;
  limited = o.limited || ltb n (value_count o.results);
}

-- Every result counts its values, and the output counts them all.
abbrev pub AreCounted : ExtractOutput → Type 0
AreCounted o = All IsCounted o.results × (o.returned_count ≡ value_count o.results)

-- The text with the first so many values, and with its own length in it, is longer than allowed.
abbrev pub IsTooLong : ExtractOutput → ℤ → ℕ → Type 0
IsTooLong o max_bytes n =
    (size : ℕ) × (size ≡ length (output_text (with_bytes (cut n o) size))) × (max_bytes <ℤ pos size)

-- What is returned for the output: as many of its values as fit.
abbrev pub Fits : ExtractOutput → ℤ → Result ExtractOutput → Type 0
Fits o max_bytes (err e) = (e ≡ output_too_small max_bytes) × IsTooLong o max_bytes 0
Fits o max_bytes (ok g) =
    (g.output_bytes ≡ length (output_text g))
    × (pos g.output_bytes ≤ℤ max_bytes)
    × ((n : ℕ) × (n ≤ value_count o.results)
        × (g ≡ with_bytes (cut n o) g.output_bytes)
        × (n < value_count o.results → IsTooLong o max_bytes (suc n)))

or_not_limited : (l : Bool) (c : ℕ) → l || ltb c c ≡ l
or_not_limited l c = ground arith

or_limited : (l : Bool) (n c : ℕ) → n < c → l || ltb n c ≡ true
or_limited l n c h = ground arith

limited_shorter : (l x : Bool) → length (bool_text (l || x)) ≤ length (bool_text l)
limited_shorter true x = omega arith
limited_shorter false true = omega arith
limited_shorter false false = omega arith

module _ (o : ExtractOutput) (max_bytes : ℤ) (counted : AreCounted o)
    (machine : bare_len o < 99999999999999999000) where
  cut_shorter : (n : ℕ) → n ≤ value_count o.results → bare_len (cut n o) ≤ bare_len o
  unfolding bare_len
  cut_shorter n h = omega (
    arith,
    results_shorter n o.results counted.0,
    decimal_len_mono n o.returned_count (omega (arith, counted.1)),
    limited_shorter o.limited (ltb n (value_count o.results)),
  )

  cut_all : (b : ℕ) → with_bytes (cut (value_count o.results) o) b ≡ with_bytes o b
  cut_all b = λ i. record o {
    results = keep_all (value_count o.results) o.results (omega arith) i;
    returned_count = sym counted.1 i;
    limited = or_not_limited o.limited (value_count o.results) i;
    output_bytes = b;
  }

  remove_value-cut :
      (n b : ℕ)
      → suc n ≤ value_count o.results
      → remove_value (with_bytes (cut (suc n) o) b) ≡ some (with_bytes (cut n o) b)
  unfolding remove_value
  remove_value-cut n b h =
      let less : suc n - 1 ≡ n = omega arith in
      ap (removed_from (with_bytes (cut (suc n) o) b)) (remove-keep n o.results h) ∙ (λ i.
        some (record o {
          results = keep n o.results;
          returned_count = less i;
          limited = sym (or_limited o.limited n (value_count o.results) (omega arith)) i;
          output_bytes = b;
        }))

  remove_value-none : (b : ℕ) → remove_value (with_bytes (cut 0 o) b) ≡ none
  unfolding remove_value
  remove_value-none b = ap (removed_from (with_bytes (cut 0 o) b)) (remove-none o.results)

  -- The loop from an output of which the first values are left, with fuel for each of them.
  Ends : ℕ → ℕ → Type 0
  Ends n b =
      (r : Result ExtractOutput) × (fit_on (suc n) (with_bytes (cut n o) b) max_bytes ≡ some r)
      × Fits o max_bytes r

  -- The first values behind the measurement: they fit.
  stops :
      (n b size : ℕ)
      → n ≤ value_count o.results
      → (n < value_count o.results → IsTooLong o max_bytes (suc n))
      → output_size (with_bytes (cut n o) b) ≡ (with_bytes (cut n o) size, size)
      → size ≡ length (output_text (with_bytes (cut n o) size))
      → pos size ≤ℤ max_bytes
      → Ends n b
  unfolding Ends
  stops n b size h more e l fit =
      let small : leb_ℤ (pos size) max_bytes ≡ true = ground arith in
      (
        ok (with_bytes (cut n o) size),
        fit_round n (with_bytes (cut n o) b) max_bytes
            ∙ ap (round_on n max_bytes) e
            ∙ rw (small, round_on) refl,
        (l, fit, (n, h, refl, more)),
      )

  -- They do not fit: the loop goes on with what a removal leaves.
  goes_on :
      (n b size : ℕ) (smaller : Option ExtractOutput)
      → output_size (with_bytes (cut n o) b) ≡ (with_bytes (cut n o) size, size)
      → max_bytes <ℤ pos size
      → remove_value (with_bytes (cut n o) size) ≡ smaller
      → fit_on (suc n) (with_bytes (cut n o) b) max_bytes ≡ elim smaller [
        | none ↦ some (err (output_too_small max_bytes))
        | some rest ↦ fit_on n rest max_bytes
      ]
  goes_on n b size smaller e long q =
      let large : leb_ℤ (pos size) max_bytes ≡ false = ground arith in
      fit_round n (with_bytes (cut n o) b) max_bytes
      ∙ ap (round_on n max_bytes) e
      ∙ rw (large, round_on) (rw (q, round_on) refl)

  -- The measurement of the first values.
  measured :
      (n b : ℕ)
      → n ≤ value_count o.results
      → decimal_len b ≤ 20
      → (size : ℕ) × (output_size (with_bytes (cut n o) b) ≡ (with_bytes (cut n o) size, size))
        × (size ≡ length (output_text (with_bytes (cut n o) size)))
        × (decimal_len size ≤ 20)
  unfolding bare_len
  measured n b h small =
      let r : ExtractOutput × ℕ = output_size (with_bytes (cut n o) b) in
      let (e, l, bound) =
        output_size-Measures (with_bytes (cut n o) b) small
          (omega (arith, cut_shorter n h, machine)) in
      (
        r.1,
        (λ i. (e i, r.1)),
        l ∙ ap (λ x. length (output_text x)) e,
        decimal_len_bound r.1 (omega (arith, bound, cut_shorter n h, machine)),
      )

  loop :
      (n b : ℕ)
      → n ≤ value_count o.results
      → decimal_len b ≤ 20
      → (n < value_count o.results → IsTooLong o max_bytes (suc n))
      → Ends n b
  unfolding Ends
  loop zero b h small more =
      let (size, e, l, _) = measured 0 b h small in
      elim (ltb_ℤ-cases max_bytes (pos size)) [
        | inl (t, long) ↦ (
          err (output_too_small max_bytes),
          goes_on 0 b size none e long (remove_value-none size),
          (refl, (size, l, long)),
        )
        | inr (t, fit) ↦ stops 0 b size h more e l fit
      ]
  loop (suc n) b h small more =
      let (size, e, l, d) = measured (suc n) b h small in
      elim (ltb_ℤ-cases max_bytes (pos size)) [
        | inl (t, long) ↦
            let (r, q, fits) = loop n size (omega arith) d (λ _. (size, l, long)) in
            (
              r,
              goes_on (suc n) b size (some (with_bytes (cut n o) size)) e long
                    (remove_value-cut n size h)
                  ∙ q,
              fits,
            )
        | inr (t, fit) ↦ stops (suc n) b size h more e l fit
      ]

-- The loop ends. If it returns an output, the number of bytes in it is the length of its JSON text and at
-- most the limit, and it is the given output with the first n values of all results, in their order: the
-- results that lost values and the output say that they are limited, and the counts are those of the
-- values left. Either n is all of them, or with one value more the text would be too long. If it returns an
-- error, the text is too long even without values. Initially every count is right.
pub fit_output-Fits :
    (o : ExtractOutput) (max_bytes : ℤ)
    → AreCounted o
    → o.output_bytes ≡ 0
    → bare_len o < 99999999999999999000
    → (r : Result ExtractOutput) × (fit_output o max_bytes ≡ some r) × Fits o max_bytes r
unfolding fit_output Ends
fit_output-Fits o max_bytes counted fresh machine =
    let c = value_count o.results in
    let start : with_bytes (cut c o) 0 ≡ o =
      cut_all o max_bytes counted machine 0 ∙ λ i. with_bytes o (sym fresh i) in
    let (r, e, fits) =
      loop o max_bytes counted machine c 0 (omega arith)
        (omega (arith, decimal_len-digit 0 (omega arith))) (λ less. absurd (omega arith)) in
    (r, ap (λ x. fit_on (suc c) x max_bytes) (sym start) ∙ e, fits)
