-- ===== src/Policy/Number.antt =====
-- An address as one number, most significant byte first.
use tls_fetch_mcp.Common.{All, [], ap, arith, length, refl, ℕ, ◌*◌, ◌++◌, ◌+◌, ◌<◌, ◌==◌, ◌∷◌, ◌≡◌}
use tls_fetch_mcp.Text.{Bytes, eq_bytes}

abbrev pub IsByte : ℕ → Type 0
IsByte b = b < 256

-- 256 to the number of bytes.
unfoldable pub weight : Bytes → ℕ
weight [] = 1
weight (b ∷ s) = 256 * weight s

unfoldable pub number : Bytes → ℕ
unfolding weight
number [] = 0
number (b ∷ s) = b * weight s + number s

-- A larger digit outweighs all that follows.
digit_lt : (w a b v : ℕ) → v < w → a < b → a * w + v < b * w
digit_lt w a b v small less = grind arith

pub number-lt-weight : (s : Bytes) → All IsByte s → number s < weight s
unfolding number
number-lt-weight [] h = omega arith
number-lt-weight (b ∷ s) h =
    ground (arith, digit_lt (weight s) b 256 (number s) (number-lt-weight s h.1) h.0)

pub weight_same : (s t : Bytes) → length s ≡ length t → weight s ≡ weight t
unfolding weight
weight_same [] [] e = refl
weight_same [] (b ∷ t) e = absurd (omega arith)
weight_same (a ∷ s) [] e = absurd (omega arith)
weight_same (a ∷ s) (b ∷ t) e = ap (λ w. 256 * w) (weight_same s t (omega arith))

-- Texts of equal length are equal where their numbers are.
pub eq_bytes-number :
    (s t : Bytes)
    → All IsByte s
    → All IsByte t
    → length s ≡ length t
    → eq_bytes s t ≡ (number s == number t)
unfolding eq_bytes number
eq_bytes-number [] [] hs ht e = refl
eq_bytes-number [] (b ∷ t) hs ht e = absurd (omega arith)
eq_bytes-number (a ∷ s) [] hs ht e = absurd (omega arith)
eq_bytes-number (a ∷ s) (b ∷ t) hs ht e =
    let rest = eq_bytes-number s t hs.1 ht.1 (omega arith) in
    let same = weight_same s t (omega arith) in
    let small = number-lt-weight s hs.1 in
    let small' = number-lt-weight t ht.1 in
    ground (arith, digit_lt (weight t) a b (number s), digit_lt (weight s) b a (number t))

weight-append : (s t : Bytes) → weight (s ++ t) ≡ weight s * weight t
unfolding weight
weight-append [] t = omega arith
weight-append (b ∷ s) t = grind (arith, weight-append s t)

pub number-append : (s t : Bytes) → number (s ++ t) ≡ number s * weight t + number t
unfolding number
number-append [] t = omega arith
number-append (b ∷ s) t = grind (arith, number-append s t, weight-append s t)
