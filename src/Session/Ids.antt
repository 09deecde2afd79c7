-- ===== src/Session/Ids.antt =====
-- validateSessionID of internal/fetch/fetch.go, which walks the runes of an identifier.
use tls_fetch_mcp.Common.{
  All, [], arith, inl, inr, length, refl, suc, true, zero, ℕ, ◌<◌, ◌↔◌, ◌∷◌, ◌≡◌, ◌≢◌, ◌≤◌,
}
use tls_fetch_mcp.Text.{Bytes, eq_bytes_iff, eq_bytes→eq}
use tls_fetch_mcp.Text.Utf8.{rune_width_ascii, rune_width, rune_value, runes_from, runes}
use tls_fetch_mcp.Text.Utf8.Boundary.{rune_width-cases}
use tls_fetch_mcp.Errors.{ok}
use tls_fetch_mcp.Session.{is_session_char, check_chars, validate_session_id}

-- A letter, a digit, a dot, an underscore or a hyphen.
abbrev pub IsSessionByte : ℕ → Type 0
IsSessionByte c = is_session_char c ≡ true

session_char-lt : (c : ℕ) → IsSessionByte c → c < 128
unfolding is_session_char
session_char-lt c h = ground arith

-- A longer encoding stands for a rune beyond ASCII.
wide_value :
    (a : ℕ) (s : Bytes) (n : ℕ)
    → rune_width (a ∷ s) ≡ suc (suc n)
    → 128 ≤ rune_value (suc (suc n)) (a ∷ s)
unfolding rune_width rune_value
wide_value a [] n e = ground arith
wide_value a (b ∷ []) zero e = ground arith
wide_value a (b ∷ []) (suc n) e = ground arith
wide_value a (b ∷ c ∷ []) zero e = ground arith
wide_value a (b ∷ c ∷ []) (suc zero) e = ground arith
wide_value a (b ∷ c ∷ []) (suc (suc n)) e = ground arith
wide_value a (b ∷ c ∷ d ∷ s) zero e = ground arith
wide_value a (b ∷ c ∷ d ∷ s) (suc zero) e = ground arith
wide_value a (b ∷ c ∷ d ∷ s) (suc (suc zero)) e = ground arith
wide_value a (b ∷ c ∷ d ∷ s) (suc (suc (suc n))) e = ground arith

rune_value-one : (a : ℕ) (s : Bytes) → rune_value 1 (a ∷ s) ≡ a
unfolding rune_value
rune_value-one a [] = refl
rune_value-one a (b ∷ []) = refl
rune_value-one a (b ∷ c ∷ []) = refl
rune_value-one a (b ∷ c ∷ d ∷ s) = refl

check_chars_sound : (s : Bytes) → check_chars (runes_from 0 s) ≡ ok tt → All IsSessionByte s
unfolding check_chars runes_from
check_chars_sound [] h = tt
check_chars_sound (a ∷ s) h = elim (rune_width-cases (a ∷ s)) [
  | inl e ↦ absurd (ground arith)
  | inr (zero, e) ↦
      let h' : check_chars (rune_value 1 (a ∷ s) ∷ runes_from 0 s) ≡ ok tt =
        rw (e, runes_from) at h in
      let v : rune_value 1 (a ∷ s) ≡ a = rune_value-one a s in
      let h'' : check_chars (a ∷ runes_from 0 s) ≡ ok tt = rw v at h' in
      (ground arith, check_chars_sound s (ground arith))
  | inr (suc n, e) ↦ absurd (
      let h' : check_chars (rune_value (suc (suc n)) (a ∷ s) ∷ runes_from (suc n) s) ≡ ok tt =
        rw (e, runes_from) at h in
      ground (arith, wide_value a s n e, session_char-lt (rune_value (suc (suc n)) (a ∷ s))))
]

check_chars_complete : (s : Bytes) → All IsSessionByte s → check_chars (runes_from 0 s) ≡ ok tt
unfolding check_chars runes_from
check_chars_complete [] h = refl
check_chars_complete (a ∷ s) h =
    let e : rune_width (a ∷ s) ≡ 1 = rune_width_ascii a s (session_char-lt a h.0) in
    rw (e, runes_from) (rw (rune_value-one a s) (rw h.0 (check_chars_complete s h.1)))

-- An identifier is accepted exactly when it is not empty, has at most 128 bytes, and each of its bytes
-- is an ASCII letter, a digit, a dot, an underscore or a hyphen.
pub validate_session_id_iff :
    (session_id : Bytes)
    → (validate_session_id session_id ≡ ok tt)
      ↔ ((session_id ≢ []) × (length session_id ≤ 128) × All IsSessionByte session_id)
unfolding validate_session_id runes
validate_session_id_iff session_id = (
  (λ h. (
    (λ e. ground (arith, eq_bytes_iff session_id [])),
    ground arith,
    check_chars_sound session_id (ground arith),
  )),
  (λ (ne, short, chars).
      ground (arith, eq_bytes→eq session_id [], check_chars_complete session_id chars)),
)
