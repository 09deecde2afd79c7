-- ===== src/Text/Utf8.antt =====
-- Package `unicode/utf8`: the length of the encoding that a text begins with, `Valid`, `RuneStart`,
-- and the runes that a `range` loop over a string visits.
pub mod Boundary
use tls_fetch_mcp.Text.{Bytes}
use tls_fetch_mcp.Common.{
  All, Bool, List, [], arith, false, if◌then◌else◌, leb, ltb, not, refl, suc, true, zero, ℕ, ◌%◌,
  ◌&&◌, ◌*◌, ◌+◌, ◌<◌, ◌==◌, ◌∷◌, ◌≡◌,
}

unfoldable pub within : ℕ → ℕ → ℕ → Bool
within lo hi c = leb lo c && leb c hi

-- A byte 10xxxxxx, which continues an encoding.
unfoldable pub is_continuation : ℕ → Bool
unfolding within
is_continuation c = within 0x80 0xBF c

-- `utf8.RuneStart`.
unfoldable pub rune_start : ℕ → Bool
unfolding is_continuation
rune_start c = not (is_continuation c)

-- The second byte that a first byte of a longer encoding admits.
unfoldable pub second_ok : ℕ → ℕ → Bool
unfolding within
second_ok a b =
    if a == 0xE0
    then within 0xA0 0xBF b
    else if a == 0xED
    then within 0x80 0x9F b
    else if a == 0xF0
    then within 0x90 0xBF b
    else if a == 0xF4
    then within 0x80 0x8F b
    else within 0x80 0xBF b

-- The length of an encoding, by its first byte; 0 for a byte that begins none.
unfoldable pub encoded_len : ℕ → ℕ
unfolding within
encoded_len a =
    if ltb a 0x80
    then 1
    else if within 0xC2 0xDF a
    then 2
    else if within 0xE0 0xEF a
    then 3
    else if within 0xF0 0xF4 a
    then 4
    else 0

abbrev width_if : Bool → ℕ → ℕ
width_if b n = if b then n else 0

-- The length of the valid encoding that the text begins with, or 0.
unfoldable pub rune_width : Bytes → ℕ
unfolding encoded_len second_ok is_continuation
rune_width [] = 0
rune_width (a ∷ []) = width_if (encoded_len a == 1) 1
rune_width (a ∷ b ∷ []) =
    if encoded_len a == 1 then 1 else width_if (encoded_len a == 2 && second_ok a b) 2
rune_width (a ∷ b ∷ c ∷ []) =
    if encoded_len a == 1
    then 1
    else if encoded_len a == 2
    then width_if (second_ok a b) 2
    else width_if (encoded_len a == 3 && second_ok a b && is_continuation c) 3
rune_width (a ∷ b ∷ c ∷ d ∷ s) =
    if encoded_len a == 1
    then 1
    else if encoded_len a == 2
    then width_if (second_ok a b) 2
    else if encoded_len a == 3
    then width_if (second_ok a b && is_continuation c) 3
    else width_if (encoded_len a == 4 && second_ok a b && is_continuation c && is_continuation d) 4

-- The number counts the bytes of the current rune that are still to come.
unfoldable pub valid_from : ℕ → Bytes → Bool
unfolding rune_width
valid_from n [] = true
valid_from (suc n) (a ∷ s) = valid_from n s
valid_from zero (a ∷ s) = elim (rune_width (a ∷ s)) [ zero ↦ false | suc n ↦ valid_from n s ]

-- `utf8.Valid` and `utf8.ValidString`.
unfoldable pub valid : Bytes → Bool
unfolding valid_from
valid s = valid_from 0 s

pub rune_width_ascii : (a : ℕ) (s : Bytes) → a < 128 → rune_width (a ∷ s) ≡ 1
unfolding rune_width
rune_width_ascii a [] h = ground arith
rune_width_ascii a (b ∷ []) h = ground arith
rune_width_ascii a (b ∷ c ∷ []) h = ground arith
rune_width_ascii a (b ∷ c ∷ d ∷ s) h = ground arith

pub valid-ascii : (s : Bytes) → All (λ b. b < 128) s → valid s ≡ true
unfolding valid
valid-ascii [] h = refl
valid-ascii (a ∷ s) h = rw (rune_width_ascii a s h.0, valid, valid_from) (valid-ascii s h.1)

-- U+FFFD, which a `range` loop yields for a byte that begins no valid encoding.
abbrev pub rune_error : ℕ
rune_error = 0xFFFD

-- The value of the valid encoding, of the length given, that the text begins with.
unfoldable pub rune_value : ℕ → Bytes → ℕ
rune_value w (a ∷ b ∷ c ∷ d ∷ s) =
    if w == 1
    then a
    else if w == 2
    then a % 32 * 64 + b % 64
    else if w == 3
    then (a % 16 * 64 + b % 64) * 64 + c % 64
    else ((a % 8 * 64 + b % 64) * 64 + c % 64) * 64 + d % 64
rune_value w (a ∷ b ∷ c ∷ []) =
    if w == 1
    then a
    else if w == 2
    then a % 32 * 64 + b % 64
    else (a % 16 * 64 + b % 64) * 64 + c % 64
rune_value w (a ∷ b ∷ []) = if w == 1 then a else a % 32 * 64 + b % 64
rune_value w (a ∷ []) = a
rune_value w [] = rune_error

-- The runes that `for _, char := range s` visits.
unfoldable pub runes_from : ℕ → Bytes → List ℕ
unfolding rune_width rune_value
runes_from n [] = []
runes_from (suc n) (a ∷ s) = runes_from n s
runes_from zero (a ∷ s) = elim (rune_width (a ∷ s)) [
  | zero ↦ rune_error ∷ runes_from 0 s
  | suc n ↦ rune_value (suc n) (a ∷ s) ∷ runes_from n s
]

unfoldable pub runes : Bytes → List ℕ
unfolding runes_from
runes s = runes_from 0 s
