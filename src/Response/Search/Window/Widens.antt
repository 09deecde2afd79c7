-- ===== src/Response/Search/Window/Widens.antt =====
-- The two loops of validUTF8Window of internal/fetch/response_store.go.
use tls_fetch_mcp.Common.{
  Bool-cases, [], arith, drop, get_elem?, inl, inr, length, refl, slice, slice_to_end, some, suc,
  true, zero, ℕ, ◌+◌, ◌-◌, ◌<◌, ◌∷◌, ◌≡◌, ◌≤◌,
}
use tls_fetch_mcp.Text.{Bytes}
use tls_fetch_mcp.Text.Utf8.{rune_start, valid}
use tls_fetch_mcp.Text.Utf8.Boundary.{valid-drop}
use tls_fetch_mcp.Response.Search.Window.{window_start, window_end, valid_utf8_window}

get_elem?-in_range : (s : Bytes) (i : ℕ) → i < length s → (b : ℕ) × (get_elem? s i ≡ some b)
get_elem?-in_range [] i h = elim h [ ]
get_elem?-in_range (a ∷ s) zero h = (a, refl)
get_elem?-in_range (a ∷ s) (suc i) h = get_elem?-in_range s i (omega arith)

-- From an index within the body the first loop ends no later, at the start of a rune or of the body;
-- what follows is valid if the body is.
window_start_lem :
    (body : Bytes) (start : ℕ)
    → start < length body
    → valid body ≡ true
    → (s : ℕ) × (window_start body start ≡ some s) × (s ≤ start) × (valid (drop s body) ≡ true)
unfolding window_start
window_start_lem body zero h v = (0, refl, omega arith, v)
window_start_lem body (suc start) h v =
    let (b, e) = get_elem?-in_range body (suc start) h in
    elim (Bool-cases (rune_start b)) [
      | inl first ↦ (
        suc start,
        rw (e, window_start) (rw first refl),
        omega arith,
        valid-drop (suc start) body b v e first,
      )
      | inr inner ↦
          let (s, q, le, w) = window_start_lem body start (omega arith) v in
          (s, rw (e, window_start) (rw inner q), omega arith, w)
    ]

-- The second loop ends no earlier, within the body, and with a valid window.
window_end_lem :
    (left : ℕ) (body : Bytes) (start end : ℕ)
    → end + left ≡ length body
    → valid (drop start body) ≡ true
    → (end ≤ window_end left body start end)
      × (window_end left body start end ≤ length body)
      × (valid (slice start (window_end left body start end) body) ≡ true)
unfolding window_end
window_end_lem zero body start end h v =
    (omega arith, omega arith, rw (slice_to_end start end body (omega arith)) v)
window_end_lem (suc left) body start end h v = elim (Bool-cases (valid (slice start end body))) [
  | inl good ↦ rw (good, window_end) (omega arith, omega arith, good)
  | inr bad ↦
      let (a, b, c) = window_end_lem left body start (end + 1) (omega arith) v in
      rw (bad, window_end) (omega arith, b, c)
]

-- In a body that is valid UTF-8, the window around a range that starts before the body's end and ends
-- within it is found without a panic, holds the range, stays within the body and is valid UTF-8.
pub valid_utf8_window-valid :
    (body : Bytes) (start end : ℕ)
    → valid body ≡ true
    → start < length body
    → end ≤ length body
    → (s : ℕ) × (e : ℕ) × (valid_utf8_window body start end ≡ some (slice s e body))
      × (s ≤ start)
      × (end ≤ e)
      × (e ≤ length body)
      × (valid (slice s e body) ≡ true)
unfolding valid_utf8_window
valid_utf8_window-valid body start end v a b =
    let (s, q, le, w) = window_start_lem body start a v in
    let (c, d, good) = window_end_lem (length body - end) body s end (omega arith) w in
    (s, window_end (length body - end) body s end, rw (q, valid_utf8_window) refl, le, c, d, good)
