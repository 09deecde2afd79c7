-- ===== src/Text/Decimal.antt =====
-- `strconv.Itoa` for a number that is not negative.
use tls_fetch_mcp.Common.{
  Bool-cases, [], ap, arith, false, inl, inr, length, length-append, ltb, refl, suc, true, zero, ℕ,
  ◌%◌, ◌++◌, ◌+◌, ◌/◌, ◌<◌, ◌∷◌, ◌≡◌, ◌≤◌, ◌⊎◌,
}
use tls_fetch_mcp.Text.{Bytes}

-- The digits that are not the last come from the quotient; the fuel counts digits.
unfoldable pub decimal_on : ℕ → ℕ → Bytes
decimal_on zero n = []
decimal_on (suc fuel) n = elim (ltb n 10) [
  | true ↦ (b'0' + n) ∷ []
  | false ↦ decimal_on fuel (n / 10) ++ ((b'0' + n % 10) ∷ [])
]

unfoldable pub decimal : ℕ → Bytes
unfolding decimal_on
decimal n = decimal_on (suc n) n

-- More fuel than enough changes nothing.
decimal_on_enough : (k fuel n : ℕ) → n < k → n < fuel → decimal_on fuel n ≡ decimal_on k n
unfolding decimal_on
decimal_on_enough zero fuel n h j = absurd (omega arith)
decimal_on_enough (suc k) zero n h j = absurd (omega arith)
decimal_on_enough (suc k) (suc fuel) n h j = elim (Bool-cases (ltb n 10)) [
  | inl small ↦ rw (small, decimal_on) refl
  | inr large ↦
      rw (large, decimal_on)
        (ap (λ s. s ++ ((b'0' + n % 10) ∷ []))
          (decimal_on_enough k fuel (n / 10) (ground arith) (ground arith)))
]

pub decimal-digit : (n : ℕ) → n < 10 → decimal n ≡ (b'0' + n) ∷ []
unfolding decimal
decimal-digit n h = ground arith

pub decimal-digits : (n : ℕ) → 10 ≤ n → decimal n ≡ decimal (n / 10) ++ ((b'0' + n % 10) ∷ [])
unfolding decimal
decimal-digits n h =
    let large : ltb n 10 ≡ false = ground arith in
    rw (large, decimal_on)
      (ap (λ s. s ++ ((b'0' + n % 10) ∷ []))
        (decimal_on_enough (suc (n / 10)) n (n / 10) (omega arith) (omega arith)))

-- The number of decimal digits.
unfoldable pub decimal_len : ℕ → ℕ
unfolding decimal
decimal_len n = length (decimal n)

pub decimal_len-digit : (n : ℕ) → n < 10 → decimal_len n ≡ 1
unfolding decimal_len
decimal_len-digit n h = rw (decimal-digit n h) refl

pub decimal_len-digits : (n : ℕ) → 10 ≤ n → decimal_len n ≡ decimal_len (n / 10) + 1
unfolding decimal_len
decimal_len-digits n h =
    rw (decimal-digits n h) (length-append (decimal (n / 10)) ((b'0' + n % 10) ∷ []))

-- To split on whether a number has more than one digit.
small_or_large : (n : ℕ) → (n < 10) ⊎ (10 ≤ n)
small_or_large n = ground arith

-- The fuel bounds the larger number.
decimal_len_mono_on : (k a b : ℕ) → b < k → a ≤ b → decimal_len a ≤ decimal_len b
decimal_len_mono_on zero a b h j = absurd (omega arith)
decimal_len_mono_on (suc k) a b h j = elim (small_or_large a) [
  | inl small ↦ elim (small_or_large b) [
    | inl s ↦ omega (arith, decimal_len-digit a small, decimal_len-digit b s)
    | inr l ↦ omega (arith, decimal_len-digit a small, decimal_len-digits b l)
  ]
  | inr large ↦ omega (
    arith,
    decimal_len-digits a large,
    decimal_len-digits b (omega arith),
    decimal_len_mono_on k (a / 10) (b / 10) (omega arith) (omega arith),
  )
]

pub decimal_len_mono : (a b : ℕ) → a ≤ b → decimal_len a ≤ decimal_len b
decimal_len_mono a b h = decimal_len_mono_on (suc b) a b (omega arith) h

pub decimal_len_pos : (n : ℕ) → 1 ≤ decimal_len n
decimal_len_pos n =
    omega (arith, decimal_len-digit 0 (omega arith), decimal_len_mono 0 n (omega arith))

-- Adding at most 20 adds at most one digit.
pub decimal_len_near : (a b : ℕ) → b ≤ a + 20 → decimal_len b ≤ decimal_len a + 1
decimal_len_near a b h = elim (small_or_large b) [
  | inl small ↦ omega (arith, decimal_len-digit b small)
  | inr large ↦ elim (small_or_large (b / 10)) [
    | inl small ↦
        omega
          (arith, decimal_len-digits b large, decimal_len-digit (b / 10) small, decimal_len_pos a)
    | inr l ↦ omega (arith, decimal_len-digits b large, decimal_len_mono (b / 10) a (omega arith))
  ]
]

twenty_digits : decimal_len 99999999999999999999 ≡ 20
unfolding decimal_len
twenty_digits = refl

-- A number below 10 ^ 20 has at most 20 digits.
pub decimal_len_bound : (n : ℕ) → n < 100000000000000000000 → decimal_len n ≤ 20
decimal_len_bound n h =
    omega (arith, decimal_len_mono n 99999999999999999999 (omega arith), twenty_digits)
