-- ===== src/Response/Search/Window.antt =====
-- `validUTF8Window`: a range of a body widened to whole runes.
use tls_fetch_mcp.Common.{
  Option, false, get_elem?, if◌then◌else◌, length, none, slice, some, suc, true, zero, ℕ, ◌+◌, ◌-◌,
}
pub mod Widens
use mathlib.Core.Option
use tls_fetch_mcp.Text.{Bytes}
use tls_fetch_mcp.Text.Utf8.{rune_start, valid}

-- The first loop: back to the start of a rune. `none` is an index out of range.
unfoldable pub window_start : Bytes → ℕ → Option ℕ
window_start body zero = some 0
window_start body (suc start) = elim (get_elem? body (suc start)) [
  | none ↦ none
  | some b ↦ if rune_start b then some (suc start) else window_start body start
]

-- The second loop: on until the window is valid, or the body ends. The first argument counts the bytes
-- behind the window.
unfoldable pub window_end : ℕ → Bytes → ℕ → ℕ → ℕ
window_end zero body start end = end
window_end (suc left) body start end = elim (valid (slice start end body)) [
  | true ↦ end
  | false ↦ window_end left body start (end + 1)
]

unfoldable pub valid_utf8_window : Bytes → ℕ → ℕ → Option Bytes
unfolding window_start window_end
valid_utf8_window body start end =
    Option.map (λ s. slice s (window_end (length body - end) body s end) body)
      (window_start body start)
