-- ===== src/Text/Space.antt =====
-- `strings.TrimSpace`: white space is what `unicode.IsSpace` accepts, in its UTF-8 encoding.
pub mod Printable
use mathlib.Core.List.{reverse}
use tls_fetch_mcp.Common.{Bool, List, [], if◌then◌else◌, leb, suc, zero, ℕ, ◌&&◌, ◌==◌, ◌||◌, ◌∷◌}

-- Tab, line feed, vertical tab, form feed, carriage return and space.
unfoldable pub is_space_byte : ℕ → Bool
is_space_byte c = leb 9 c && leb c 13 || c == 32

-- U+0085 and U+00A0.
unfoldable pub is_space_pair : ℕ → ℕ → Bool
is_space_pair a b = a == 0xC2 && (b == 0x85 || b == 0xA0)

-- U+1680, U+2000 to U+200A, U+2028, U+2029, U+202F, U+205F and U+3000.
unfoldable pub is_space_triple : ℕ → ℕ → ℕ → Bool
is_space_triple a b c =
    a == 0xE1 && b == 0x9A && c == 0x80
    || a == 0xE2 && b == 0x80 && (leb 0x80 c && leb c 0x8A || c == 0xA8 || c == 0xA9 || c == 0xAF)
    || a == 0xE2 && b == 0x81 && c == 0x9F
    || a == 0xE3 && b == 0x80 && c == 0x80

abbrev width_if : Bool → ℕ → ℕ → ℕ
width_if b n m = if b then n else m

-- The length of the white-space rune that the text begins with, or 0.
unfoldable pub leading_space : List ℕ → ℕ
unfolding is_space_byte is_space_pair is_space_triple
leading_space [] = 0
leading_space (a ∷ []) = width_if (is_space_byte a) 1 0
leading_space (a ∷ b ∷ []) = width_if (is_space_byte a) 1 (width_if (is_space_pair a b) 2 0)
leading_space (a ∷ b ∷ c ∷ s) =
    width_if (is_space_byte a) 1
      (width_if (is_space_pair a b) 2 (width_if (is_space_triple a b c) 3 0))

-- The same at the end of a text whose bytes come last first.
unfoldable pub trailing_space : List ℕ → ℕ
unfolding is_space_byte is_space_pair is_space_triple
trailing_space [] = 0
trailing_space (a ∷ []) = width_if (is_space_byte a) 1 0
trailing_space (b ∷ a ∷ []) = width_if (is_space_byte b) 1 (width_if (is_space_pair a b) 2 0)
trailing_space (c ∷ b ∷ a ∷ s) =
    width_if (is_space_byte c) 1
      (width_if (is_space_pair b c) 2 (width_if (is_space_triple a b c) 3 0))

module _ (width : List ℕ → ℕ) where
  -- Drops the runes that `width` measures; the number counts bytes of the current one still to drop.
  unfoldable pub trim_runes : ℕ → List ℕ → List ℕ
  trim_runes n [] = []
  trim_runes (suc n) (a ∷ s) = trim_runes n s
  trim_runes zero (a ∷ s) = elim (width (a ∷ s)) [ zero ↦ a ∷ s | suc n ↦ trim_runes n s ]

unfoldable pub trim_space : List ℕ → List ℕ
unfolding leading_space trailing_space trim_runes
trim_space s = reverse (trim_runes trailing_space 0 (reverse (trim_runes leading_space 0 s)))
