-- ===== src/Text/Case.antt =====
-- `strings.ToLower`, `strings.ToUpper` and `strings.EqualFold`. Go maps the bytes of an ASCII text one
-- by one, and any other text rune by rune through the tables of package `unicode`. Those tables are a
-- parameter.
use tls_fetch_mcp.Text.{eq_bytes}
use tls_fetch_mcp.Common.{
  Bool, List, [], if◌then◌else◌, leb, ltb, map, true, ℕ, ◌&&◌, ◌+◌, ◌-◌, ◌∷◌,
}

-- What `strings.Map(unicode.ToLower, s)` and `strings.Map(unicode.ToUpper, s)` give for a text that
-- is not ASCII, and what `strings.EqualFold(s, t)` gives for two texts that are not both ASCII.
pub record Unicode : Type 0 where
  pub map_lower : List ℕ → List ℕ
  pub map_upper : List ℕ → List ℕ
  pub fold_equal : List ℕ → List ℕ → Bool

unfoldable pub lower_byte : ℕ → ℕ
lower_byte c = if leb b'A' c && leb c b'Z' then c + 32 else c

unfoldable pub upper_byte : ℕ → ℕ
upper_byte c = if leb b'a' c && leb c b'z' then c - 32 else c

unfoldable pub is_ascii : List ℕ → Bool
is_ascii [] = true
is_ascii (c ∷ s) = ltb c 128 && is_ascii s

unfoldable pub to_lower : Unicode → List ℕ → List ℕ
unfolding lower_byte is_ascii
to_lower u s = if is_ascii s then map lower_byte s else u.map_lower s

unfoldable pub to_upper : Unicode → List ℕ → List ℕ
unfolding upper_byte is_ascii
to_upper u s = if is_ascii s then map upper_byte s else u.map_upper s

-- `strings.EqualFold`.
unfoldable pub equal_fold : Unicode → List ℕ → List ℕ → Bool
unfolding lower_byte is_ascii eq_bytes
equal_fold u s t =
    if is_ascii s && is_ascii t
    then eq_bytes (map lower_byte s) (map lower_byte t)
    else u.fold_equal s t

-- Tables for texts that the program's own literals never leave: nothing beyond ASCII changes.
abbrev pub ascii_only : Unicode
ascii_only = record { map_lower = λ s. s; map_upper = λ s. s; fold_equal = eq_bytes }
