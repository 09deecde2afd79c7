-- ===== src/Extract/Fit/Size.antt =====
-- extractionOutputSize of internal/fetch/extract.go: the rounds settle.
use tls_fetch_mcp.Common.{
  ==_refl, List, Option, [], ap, arith, false, inl, inr, length, none, refl, some, suc, sym, true,
  ℕ, ◌+◌, ◌<◌, ◌==◌, ◌∙◌, ◌∷◌, ◌≡◌, ◌≢◌, ◌≤◌, ◌⊎◌,
}
use tls_fetch_mcp.Text.{Bytes, ascii}
use tls_fetch_mcp.Text.Decimal.{
  decimal, decimal_len, decimal_len_mono, decimal_len_pos, decimal_len_near, decimal_len_bound,
}
use tls_fetch_mcp.Text.Json.{quote, member, optional_member, bool_text}
use tls_fetch_mcp.Text.Json.Size.{weight, length-object, length-member, weight-optional_member}
use tls_fetch_mcp.Extract.Types.{ExtractOutput}
use tls_fetch_mcp.Extract.Fit.{
  total_members, output_text, results_text, size_from, output_size, is_size,
}

-- The members in front of the totals.
abbrev head_weight : ExtractOutput → ℕ
head_weight o = weight (
    member (ascii "response_id") (quote o.response_id)
    ∷ member (ascii "format") (quote o.format)
    ∷ optional_member (ascii "content_type") o.content_type (
        optional_member (ascii "final_url") o.final_url (
          member (ascii "source_bytes") (decimal o.source_bytes)
          ∷ member (ascii "source_truncated") (bool_text o.source_truncated)
          ∷ [])))

length-head :
    (o : ExtractOutput) → length (output_text o) ≡ head_weight o + weight (total_members o) + 1
unfolding output_text
length-head o =
    let source = member (ascii "source_bytes") (decimal o.source_bytes) in
    let truncated = member (ascii "source_truncated") (bool_text o.source_truncated) in
    let tail : List Bytes → List Bytes =
      λ ms. optional_member (ascii "final_url") o.final_url (source ∷ truncated ∷ ms) in
    omega (
      arith,
      length-object (member (ascii "response_id") (quote o.response_id)) (
          member (ascii "format") (quote o.format)
          ∷ optional_member (ascii "content_type") o.content_type (tail (total_members o))),
      weight-optional_member (ascii "content_type") o.content_type (tail (total_members o)),
      weight-optional_member (ascii "content_type") o.content_type (tail []),
      weight-optional_member (ascii "final_url") o.final_url (source ∷ truncated ∷ total_members o),
      weight-optional_member (ascii "final_url") o.final_url (source ∷ truncated ∷ []),
    )

-- The bytes of the totals' names and punctuation.
abbrev names_weight : ℕ
names_weight =
    length (quote (ascii "results"))
    + length (quote (ascii "returned_count"))
    + length (quote (ascii "limited"))
    + length (quote (ascii "output_bytes"))

weight-total_members :
    (o : ExtractOutput)
    → weight (total_members o)
      ≡ names_weight
        + length (results_text o.results)
        + decimal_len o.returned_count
        + length (bool_text o.limited)
        + decimal_len o.output_bytes
        + 8
unfolding total_members decimal_len
weight-total_members o = omega (
  arith,
  length-member (ascii "results") (results_text o.results),
  length-member (ascii "returned_count") (decimal o.returned_count),
  length-member (ascii "limited") (bool_text o.limited),
  length-member (ascii "output_bytes") (decimal o.output_bytes),
)

-- The length without the digits of the number of bytes.
unfoldable pub bare_len : ExtractOutput → ℕ
bare_len o =
    head_weight o
    + names_weight
    + length (results_text o.results)
    + decimal_len o.returned_count
    + length (bool_text o.limited)
    + 9

pub length-output_text :
    (o : ExtractOutput) → length (output_text o) ≡ bare_len o + decimal_len o.output_bytes
unfolding bare_len
length-output_text o = omega (arith, length-head o, weight-total_members o)

-- Three sizes in a row, each from the digits of the one before, and then a fourth: it is the third. Two
-- neighbouring sizes differ by at most 20, so that at most two numbers of digits occur.
sizes_settle :
    (b d s t : ℕ)
    → d ≤ 20
    → b < 99999999999999999000
    → s ≡ b + d
    → t ≡ b + decimal_len s
    → decimal_len (b + decimal_len t) ≡ decimal_len t
sizes_settle b d s t h small e q =
    let ds : decimal_len s ≤ 20 = decimal_len_bound s (omega arith) in
    let dt : decimal_len t ≤ 20 = decimal_len_bound t (omega arith) in
    ground (
      arith,
      decimal_len_pos s,
      decimal_len_pos t,
      decimal_len_near s t (omega arith),
      decimal_len_near t s (omega arith),
      decimal_len_near s (b + decimal_len t) (omega arith),
      decimal_len_near (b + decimal_len t) s (omega arith),
      decimal_len_mono t (b + decimal_len t),
      decimal_len_mono (b + decimal_len t) t,
      decimal_len_mono s t,
      decimal_len_mono t s,
    )

abbrev pub with_bytes : ExtractOutput → ℕ → ExtractOutput
with_bytes o n = record o { output_bytes = n }

len_with :
    (o : ExtractOutput) (n : ℕ) → length (output_text (with_bytes o n)) ≡ bare_len o + decimal_len n
unfolding bare_len
len_with o n = length-output_text (with_bytes o n)

-- A round behind the measurement.
abbrev measured : ℕ → Option ℕ → ExtractOutput → ℕ → ExtractOutput × ℕ
measured rounds previous o size = elim (is_size previous size) [
  | true ↦ (o, size)
  | false ↦ size_from rounds (some size) (with_bytes o size)
]

round_is :
    (rounds : ℕ) (previous : Option ℕ) (o : ExtractOutput) (size : ℕ)
    → length (output_text o) ≡ size
    → size_from (suc rounds) previous o ≡ measured rounds previous o size
unfolding size_from
round_is rounds previous o size e = ap (measured rounds previous o) e

round_stops :
    (rounds p : ℕ) (o : ExtractOutput)
    → bare_len o + decimal_len p ≡ p
    → size_from (suc rounds) (some p) (with_bytes o p) ≡ (with_bytes o p, p)
round_stops rounds p o e =
    round_is rounds (some p) (with_bytes o p) p (len_with o p ∙ e) ∙ rw (==_refl p, measured) refl

round_continues :
    (rounds p s : ℕ) (o : ExtractOutput)
    → s ≡ bare_len o + decimal_len p
    → s ≢ p
    → size_from (suc rounds) (some p) (with_bytes o p) ≡ size_from rounds (some s) (with_bytes o s)
round_continues rounds p s o e ne =
    let differs : (s == p) ≡ false = ground arith in
    round_is rounds (some p) (with_bytes o p) s (len_with o p ∙ sym e) ∙ rw (differs, measured) refl

first_round :
    (o : ExtractOutput) (s : ℕ)
    → s ≡ bare_len o + decimal_len o.output_bytes
    → output_size o ≡ size_from 3 (some s) (with_bytes o s)
unfolding output_size
first_round o s e = round_is 3 none o s (length-output_text o ∙ sym e)

equal_or_not : (a b : ℕ) → (a ≡ b) ⊎ (a ≢ b)
equal_or_not a b = ground arith

-- The output notes a number of bytes, which is the length of its text.
abbrev pub Measures : ExtractOutput → ExtractOutput × ℕ → Type 0
Measures o (sized, size) =
    (sized ≡ record o { output_bytes = size })
    × (size ≡ length (output_text sized))
    × (size ≤ bare_len o + 20)

Measures-self :
    (o : ExtractOutput) (p : ℕ) (r : ExtractOutput × ℕ)
    → bare_len o + decimal_len p ≡ p
    → p ≤ bare_len o + 20
    → r ≡ (with_bytes o p, p)
    → Measures o r
Measures-self o p r e l q = rw q (refl, sym (len_with o p ∙ e), l)

-- The number of bytes that an output notes in itself is the length of the text, that number included,
-- that `json.Marshal` makes of it: four rounds always suffice. The lengths are those of a machine.
pub output_size-Measures :
    (o : ExtractOutput)
    → decimal_len o.output_bytes ≤ 20
    → bare_len o < 99999999999999999000
    → Measures o (output_size o)
output_size-Measures o small h =
    let s = bare_len o + decimal_len o.output_bytes in
    let t = bare_len o + decimal_len s in
    let u = bare_len o + decimal_len t in
    let ds : decimal_len s ≤ 20 = decimal_len_bound s (omega arith) in
    let dt : decimal_len t ≤ 20 = decimal_len_bound t (omega arith) in
    elim (equal_or_not t s) [
      | inl e ↦
          Measures-self o s (output_size o) e (omega arith)
            (first_round o s refl ∙ round_stops 2 s o e)
      | inr ne ↦ elim (equal_or_not u t) [
        | inl e ↦
            Measures-self o t (output_size o) e (omega arith)
              (first_round o s refl ∙ round_continues 2 s t o refl ne ∙ round_stops 1 t o e)
        | inr ne' ↦
            let settled : bare_len o + decimal_len u ≡ u =
              ap (λ d. bare_len o + d)
                (sizes_settle (bare_len o) (decimal_len o.output_bytes) s t small h refl refl) in
            Measures-self o u (output_size o) settled (omega arith) (
              first_round o s refl
              ∙ round_continues 2 s t o refl ne
              ∙ round_continues 1 t u o refl ne'
              ∙ round_stops 0 u o settled)
      ]
    ]
