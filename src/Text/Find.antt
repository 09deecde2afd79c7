-- ===== src/Text/Find.antt =====
-- `bytes.Index`: the first position at which the needle occurs.
use mathlib.Core.Option
use tls_fetch_mcp.Common.{
  Option, [], arith, drop, false, if◌then◌else◌, length, none, some, suc, true, zero, ℕ, ◌+◌, ◌<◌,
  ◌∷◌, ◌≡◌, ◌≤◌,
}
use tls_fetch_mcp.Text.{Bytes, has_prefix}

unfoldable pub index : Bytes → Bytes → Option ℕ
index [] needle = if has_prefix [] needle then some 0 else none
index (a ∷ s) needle = if has_prefix (a ∷ s) needle then some 0 else Option.map suc (index s needle)

-- The needle occurs at the position.
abbrev pub OccursAt : Bytes → Bytes → ℕ → Type 0
OccursAt needle s i = has_prefix (drop i s) needle ≡ true

pub index→OccursAt : (s needle : Bytes) (i : ℕ) → index s needle ≡ some i → OccursAt needle s i
unfolding index
index→OccursAt [] needle zero h = ground arith
index→OccursAt [] needle (suc i) h = ground arith
index→OccursAt (a ∷ s) needle zero h = ground arith
index→OccursAt (a ∷ s) needle (suc i) h = ground (arith, index→OccursAt s needle i)

-- The position found is the first.
pub index_first :
    (s needle : Bytes) (i j : ℕ)
    → index s needle ≡ some i
    → j < i
    → has_prefix (drop j s) needle ≡ false
unfolding index
index_first [] needle i j h lt = ground arith
index_first (a ∷ s) needle (suc i) zero h lt = ground arith
index_first (a ∷ s) needle (suc i) (suc j) h lt = ground (arith, index_first s needle i j)
index_first (a ∷ s) needle zero j h lt = absurd (omega arith)

-- Without a result the needle occurs nowhere.
pub index-none :
    (s needle : Bytes) (j : ℕ) → index s needle ≡ none → has_prefix (drop j s) needle ≡ false
unfolding index
index-none [] needle zero h = ground arith
index-none [] needle (suc j) h = ground arith
index-none (a ∷ s) needle zero h = ground arith
index-none (a ∷ s) needle (suc j) h = ground (arith, index-none s needle j)

pub length-le_of_has_prefix : (s p : Bytes) → has_prefix s p ≡ true → length p ≤ length s
unfolding has_prefix
length-le_of_has_prefix s [] h = omega arith
length-le_of_has_prefix [] (b ∷ p) h = cc
length-le_of_has_prefix (a ∷ s) (b ∷ p) h = ground (arith, length-le_of_has_prefix s p)

-- An occurrence lies within the text.
pub OccursAt-bound :
    (s needle : Bytes) (i : ℕ) → OccursAt needle s i → i ≤ length s → i + length needle ≤ length s
OccursAt-bound s needle zero h le = omega (arith, length-le_of_has_prefix s needle h)
OccursAt-bound [] needle (suc i) h le = absurd (omega arith)
OccursAt-bound (a ∷ s) needle (suc i) h le = omega (arith, OccursAt-bound s needle i h)

pub index-le-length : (s needle : Bytes) (i : ℕ) → index s needle ≡ some i → i ≤ length s
unfolding index
index-le-length [] needle i h = ground arith
index-le-length (a ∷ s) needle zero h = omega arith
index-le-length (a ∷ s) needle (suc i) h = ground (arith, index-le-length s needle i)
