-- ===== src/Text/Split.antt =====
-- `strings.Split` at a one-byte separator.
use tls_fetch_mcp.Text.{Bytes}
use tls_fetch_mcp.Common.{
  ==_refl, All, List, [], ap, false, if◌then◌else◌, refl, ℕ, ◌++◌, ◌==◌, ◌∙◌, ◌∷◌, ◌≡◌,
}

-- Puts a byte in front of the first piece.
abbrev extend : ℕ → List Bytes → List Bytes
extend c [] = (c ∷ []) ∷ []
extend c (piece ∷ pieces) = (c ∷ piece) ∷ pieces

unfoldable pub split : ℕ → Bytes → List Bytes
split sep [] = [] ∷ []
split sep (c ∷ s) = if c == sep then [] ∷ split sep s else extend c (split sep s)

abbrev pub IsFree : ℕ → Bytes → Type 0
IsFree sep s = All (λ c. (c == sep) ≡ false) s

-- The pieces with the separator between them.
abbrev pub joined : ℕ → Bytes → List Bytes → Bytes
joined sep piece [] = piece
joined sep piece (next ∷ pieces) = piece ++ sep ∷ joined sep next pieces

split-free : (sep : ℕ) (piece : Bytes) → IsFree sep piece → split sep piece ≡ piece ∷ []
unfolding split
split-free sep [] h = refl
split-free sep (c ∷ piece) h = rw (h.0, split-free sep piece h.1) refl

split-append :
    (sep : ℕ) (piece s : Bytes)
    → IsFree sep piece
    → split sep (piece ++ sep ∷ s) ≡ piece ∷ split sep s
unfolding split
split-append sep [] s h = rw (==_refl sep) refl
split-append sep (c ∷ piece) s h = rw (h.0, split-append sep piece s h.1) refl

-- Pieces without the separator that are joined by it are what `Split` finds.
pub split-joined :
    (sep : ℕ) (piece : Bytes) (pieces : List Bytes)
    → All (IsFree sep) (piece ∷ pieces)
    → split sep (joined sep piece pieces) ≡ piece ∷ pieces
split-joined sep piece [] h = split-free sep piece h.0
split-joined sep piece (next ∷ pieces) h =
    split-append sep piece (joined sep next pieces) h.0
    ∙ ap (λ l. piece ∷ l) (split-joined sep next pieces h.1)
