-- ===== src/Text/Utf8/Boundary.antt =====
-- A valid text cut at the start of a rune leaves a valid text.
use tls_fetch_mcp.Common.{
  [], arith, drop, get_elem?, inl, inr, some, suc, true, zero, ℕ, ℕ-cases, ◌∷◌, ◌≡◌, ◌⊎◌,
}
use tls_fetch_mcp.Text.{Bytes}
use tls_fetch_mcp.Text.Utf8.{is_continuation, rune_start, second_ok, rune_width, valid_from, valid}

-- The first `n` bytes continue a rune that began before.
abbrev Continues : ℕ → Bytes → Type 0
Continues zero s = Unit
Continues (suc n) [] = ⊥
Continues (suc n) (a ∷ s) = (is_continuation a ≡ true) × Continues n s

second_ok→continuation : (a b : ℕ) → second_ok a b ≡ true → is_continuation b ≡ true
unfolding second_ok is_continuation
second_ok→continuation a b h = ground arith

rune_width-Continues : (a : ℕ) (s : Bytes) (n : ℕ) → rune_width (a ∷ s) ≡ suc n → Continues n s
unfolding rune_width
rune_width-Continues a [] zero h = tt
rune_width-Continues a [] (suc n) h = ground arith
rune_width-Continues a (b ∷ []) zero h = tt
rune_width-Continues a (b ∷ []) (suc zero) h = ground (arith, second_ok→continuation a b)
rune_width-Continues a (b ∷ []) (suc (suc n)) h = ground arith
rune_width-Continues a (b ∷ c ∷ []) zero h = tt
rune_width-Continues a (b ∷ c ∷ []) (suc zero) h = ground (arith, second_ok→continuation a b)
rune_width-Continues a (b ∷ c ∷ []) (suc (suc zero)) h = ground (arith, second_ok→continuation a b)
rune_width-Continues a (b ∷ c ∷ []) (suc (suc (suc n))) h = ground arith
rune_width-Continues a (b ∷ c ∷ d ∷ s) zero h = tt
rune_width-Continues a (b ∷ c ∷ d ∷ s) (suc zero) h = ground (arith, second_ok→continuation a b)
rune_width-Continues a (b ∷ c ∷ d ∷ s) (suc (suc zero)) h =
    ground (arith, second_ok→continuation a b)
rune_width-Continues a (b ∷ c ∷ d ∷ s) (suc (suc (suc zero))) h =
    ground (arith, second_ok→continuation a b)
rune_width-Continues a (b ∷ c ∷ d ∷ s) (suc (suc (suc (suc n)))) h = ground arith

pub rune_width-cases : (s : Bytes) → (rune_width s ≡ zero) ⊎ ((n : ℕ) × (rune_width s ≡ suc n))
rune_width-cases s = ℕ-cases (rune_width s)

valid_from-drop :
    (n i : ℕ) (s : Bytes) (b : ℕ)
    → Continues n s
    → valid_from n s ≡ true
    → get_elem? s i ≡ some b
    → rune_start b ≡ true
    → valid_from 0 (drop i s) ≡ true
unfolding valid_from rune_start
valid_from-drop n i [] b c v g r = cc
valid_from-drop zero zero (a ∷ s) b c v g r = v
valid_from-drop (suc n) zero (a ∷ s) b c v g r = ground arith
valid_from-drop (suc n) (suc i) (a ∷ s) b c v g r = valid_from-drop n i s b c.1 v g r
valid_from-drop zero (suc i) (a ∷ s) b c v g r = elim (rune_width-cases (a ∷ s)) [
  | inl e ↦ absurd (ground arith)
  | inr (n, e) ↦
      valid_from-drop n i s b (rune_width-Continues a s n e) (rw (e, valid_from) at v) g r
]

pub valid-drop :
    (i : ℕ) (s : Bytes) (b : ℕ)
    → valid s ≡ true
    → get_elem? s i ≡ some b
    → rune_start b ≡ true
    → valid (drop i s) ≡ true
unfolding valid
valid-drop i s b v g r = valid_from-drop 0 i s b tt v g r
