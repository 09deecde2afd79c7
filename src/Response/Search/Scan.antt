-- ===== src/Response/Search/Scan.antt =====
-- The loop of `SearchResponse` over the body, and `asciiLowerCopy`.
use tls_fetch_mcp.Common.{
  Bool, List, Option, [], drop, false, leb, length, length-map, map, none, some, suc, true, zero, ℕ,
  ◌+◌, ◌==◌, ◌∷◌, ◌≡◌,
}
use tls_fetch_mcp.Text.{Bytes}
use tls_fetch_mcp.Text.Case.{lower_byte}
use tls_fetch_mcp.Text.Find.{index}

unfoldable pub ascii_lower_copy : Bytes → Bytes
unfolding lower_byte
ascii_lower_copy value = map lower_byte value

pub length-ascii_lower_copy : (s : Bytes) → length (ascii_lower_copy s) ≡ length s
unfolding ascii_lower_copy
length-ascii_lower_copy s = length-map s lower_byte

module _ (haystack needle : Bytes) (max_matches : ℕ) where
  abbrev pub add_match : ℕ → Option (List ℕ × Bool) → Option (List ℕ × Bool)
  add_match offset none = none
  add_match offset (some (offsets, limited)) = some (offset ∷ offsets, limited)

  -- The loop, from the number of matches found so far and `searchFrom`: the offsets of the further
  -- matches, and `limited`. The fuel is for the rounds; `none` means that it ran out.
  unfoldable pub scan : ℕ → ℕ → ℕ → Option (List ℕ × Bool)
  scan zero count search_from = none
  scan (suc fuel) count search_from = elim (leb (search_from + length needle) (length haystack)) [
    | false ↦ some ([], false)
    | true ↦ elim (index (drop search_from haystack) needle) [
      | none ↦ some ([], false)
      | some relative ↦
          let offset = search_from + relative in
          elim (count == max_matches) [
            | true ↦ some ([], true)
            | false ↦ add_match offset (scan fuel (count + 1) (offset + length needle))
          ]
    ]
  ]
