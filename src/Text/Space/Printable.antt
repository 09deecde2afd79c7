-- ===== src/Text/Space/Printable.antt =====
-- `strings.TrimSpace` and `strings.ToLower` of a text of printable ASCII bytes.
use tls_fetch_mcp.Common.{
  All, All-append, List, [], ap, append-nil, arith, refl, sym, true, ℕ, ◌++◌, ◌<◌, ◌∙◌, ◌∷◌, ◌≡◌,
  ◌≤◌,
}
use mathlib.Core.List.{reverse, reverse-reverse, reverse-cons, reverse-append}
use tls_fetch_mcp.Text.{Bytes}
use tls_fetch_mcp.Text.Space.{
  leading_space, trailing_space, trim_runes, trim_space, is_space_byte, is_space_pair,
  is_space_triple,
}

-- ASCII, not white space and not a control character.
abbrev pub IsPrintable : ℕ → Type 0
IsPrintable c = (33 ≤ c) × (c < 127)

leading_space-none : (c : ℕ) (s : Bytes) → IsPrintable c → leading_space (c ∷ s) ≡ 0
unfolding leading_space is_space_byte is_space_pair is_space_triple
leading_space-none c [] h = ground arith
leading_space-none c (b ∷ []) h = ground arith
leading_space-none c (b ∷ a ∷ s) h = ground arith

trailing_space-none : (c : ℕ) (s : Bytes) → IsPrintable c → trailing_space (c ∷ s) ≡ 0
unfolding trailing_space is_space_byte is_space_pair is_space_triple
trailing_space-none c [] h = ground arith
trailing_space-none c (b ∷ []) h = ground arith
trailing_space-none c (b ∷ a ∷ s) h = ground arith

trim_runes_whole :
    (width : List ℕ → ℕ)
    → ((c : ℕ) (s : Bytes) → IsPrintable c → width (c ∷ s) ≡ 0)
    → (c : ℕ) (s : Bytes) → IsPrintable c
    → trim_runes width 0 (c ∷ s) ≡ c ∷ s
unfolding trim_runes
trim_runes_whole width none_here c s h = rw (none_here c s h, trim_runes) refl

trim_runes_self :
    (width : List ℕ → ℕ)
    → ((c : ℕ) (s : Bytes) → IsPrintable c → width (c ∷ s) ≡ 0)
    → (s : Bytes) → All IsPrintable s
    → trim_runes width 0 s ≡ s
unfolding trim_runes
trim_runes_self width none_here [] h = refl
trim_runes_self width none_here (c ∷ s) h = trim_runes_whole width none_here c s h.0

All-reverse : (P : ℕ → Type 0) (s : Bytes) → All P s → All P (reverse s)
All-reverse P [] h = tt
All-reverse P (c ∷ s) h =
    rw (reverse-cons) (All-append P (reverse s) (c ∷ []) (All-reverse P s h.1) (h.0, tt))

-- White space in ASCII.
abbrev pub IsSpace : ℕ → Type 0
IsSpace c = is_space_byte c ≡ true

leading_space-one : (c : ℕ) (s : Bytes) → IsSpace c → leading_space (c ∷ s) ≡ 1
unfolding leading_space
leading_space-one c [] h = rw h refl
leading_space-one c (b ∷ []) h = rw h refl
leading_space-one c (b ∷ a ∷ s) h = rw h refl

trailing_space-one : (c : ℕ) (s : Bytes) → IsSpace c → trailing_space (c ∷ s) ≡ 1
unfolding trailing_space
trailing_space-one c [] h = rw h refl
trailing_space-one c (b ∷ []) h = rw h refl
trailing_space-one c (b ∷ a ∷ s) h = rw h refl

trim_runes-spaces :
    (width : List ℕ → ℕ)
    → ((c : ℕ) (s : Bytes) → IsSpace c → width (c ∷ s) ≡ 1)
    → (spaces s : Bytes) → All IsSpace spaces
    → trim_runes width 0 (spaces ++ s) ≡ trim_runes width 0 s
unfolding trim_runes
trim_runes-spaces width one [] s h = refl
trim_runes-spaces width one (c ∷ spaces) s h =
    rw (one c (spaces ++ s) h.0, trim_runes) (trim_runes-spaces width one spaces s h.1)

-- Behind the white space in front, a text that is empty or begins with a printable byte stays whole.
trim_left :
    (host right : Bytes)
    → All IsPrintable host
    → All IsSpace right
    → reverse (trim_runes trailing_space 0 (reverse (trim_runes leading_space 0 (host ++ right))))
      ≡ host
unfolding trim_runes
trim_left [] right h r =
    ap (λ x. reverse (trim_runes trailing_space 0 (reverse x)))
      (ap (trim_runes leading_space 0) (sym (append-nil right))
        ∙ trim_runes-spaces leading_space leading_space-one right [] r)
trim_left (c ∷ host) right h r =
    ap (λ x. reverse (trim_runes trailing_space 0 (reverse x)))
      (trim_runes_whole leading_space leading_space-none c (host ++ right) h.0)
    ∙ ap (λ x. reverse (trim_runes trailing_space 0 x)) (reverse-append (c ∷ host) right)
    ∙ ap reverse (
        trim_runes-spaces trailing_space trailing_space-one (reverse right) (reverse (c ∷ host))
          (All-reverse IsSpace right r)
        ∙ trim_runes_self trailing_space trailing_space-none (reverse (c ∷ host))
            (All-reverse IsPrintable (c ∷ host) h))
    ∙ reverse-reverse (c ∷ host)

-- White space around printable ASCII goes.
pub trim_space-spaces :
    (left host right : Bytes)
    → All IsSpace left
    → All IsPrintable host
    → All IsSpace right
    → trim_space (left ++ (host ++ right)) ≡ host
unfolding trim_space
trim_space-spaces left host right l h r =
    ap (λ x. reverse (trim_runes trailing_space 0 (reverse x)))
      (trim_runes-spaces leading_space leading_space-one left (host ++ right) l)
    ∙ trim_left host right h r
