-- ===== src/Text.antt =====
-- Go's strings and byte slices as lists of bytes, with the functions of packages `strings`, `bytes`
-- and `strconv` that the program calls. Bytes from 128 on belong to longer UTF-8 encodings.
pub mod Case
pub mod Space
pub mod Number
pub mod Utf8
pub mod Split
pub mod Find
pub mod Order
pub mod Decimal
pub mod Fields
pub mod Json
use Prim.Native.Char.{code}
use Prim.Native.String.{String}
use tls_fetch_mcp.Common.{
  Bool, Bool-cases, List, [], ap, arith, drop, false, inl, inr, length, refl, true, ℕ, ◌&&◌, ◌++◌,
  ◌==◌, ◌||◌, ◌↔◌, ◌∷◌, ◌≡◌,
}

abbrev pub Bytes : Type 0
Bytes = List ℕ

-- An ASCII literal of the source.
abbrev pub ascii : String → Bytes
ascii String.[] = []
ascii (String.◌∷◌ c s) = code c ∷ ascii s

-- `s == t`.
unfoldable pub eq_bytes : Bytes → Bytes → Bool
eq_bytes [] [] = true
eq_bytes [] (b ∷ t) = false
eq_bytes (a ∷ s) [] = false
eq_bytes (a ∷ s) (b ∷ t) = a == b && eq_bytes s t

-- The text is one of the list.
abbrev pub one_of : Bytes → List Bytes → Bool
one_of s [] = false
one_of s (t ∷ ts) = eq_bytes s t || one_of s ts

-- `strings.HasPrefix(s, p)`.
unfoldable pub has_prefix : Bytes → Bytes → Bool
has_prefix s [] = true
has_prefix [] (b ∷ p) = false
has_prefix (a ∷ s) (b ∷ p) = a == b && has_prefix s p

-- `strings.HasSuffix(s, p)`: the end of `s` that is as long as `p`.
unfoldable pub has_suffix : Bytes → Bytes → Bool
unfolding eq_bytes
has_suffix [] p = eq_bytes [] p
has_suffix (a ∷ s) p = eq_bytes (a ∷ s) p || has_suffix s p

pub eq_bytes→eq : (s t : Bytes) → eq_bytes s t ≡ true → s ≡ t
unfolding eq_bytes
eq_bytes→eq [] [] h = refl
eq_bytes→eq [] (b ∷ t) h = cc
eq_bytes→eq (a ∷ s) [] h = cc
eq_bytes→eq (a ∷ s) (b ∷ t) h = ground (arith, eq_bytes→eq s t)

pub eq_bytes_refl : (s : Bytes) → eq_bytes s s ≡ true
unfolding eq_bytes
eq_bytes_refl [] = refl
eq_bytes_refl (a ∷ s) = ground (arith, eq_bytes_refl s)

pub eq_bytes_iff : (s t : Bytes) → (eq_bytes s t ≡ true) ↔ (s ≡ t)
eq_bytes_iff s t = (eq_bytes→eq s t, λ e. rw e (eq_bytes_refl t))

pub has_prefix→append : (s p : Bytes) → has_prefix s p ≡ true → s ≡ p ++ drop (length p) s
unfolding has_prefix
has_prefix→append s [] h = refl
has_prefix→append [] (b ∷ p) h = cc
has_prefix→append (a ∷ s) (b ∷ p) h = ground (arith, has_prefix→append s p)

pub has_prefix-append : (p s : Bytes) → has_prefix (p ++ s) p ≡ true
unfolding has_prefix
has_prefix-append [] [] = refl
has_prefix-append [] (a ∷ s) = refl
has_prefix-append (b ∷ p) s = ground (arith, has_prefix-append p s)

-- What stands before the suffix.
pub has_suffix→append : (s p : Bytes) → has_suffix s p ≡ true → (front : Bytes) × (s ≡ front ++ p)
unfolding has_suffix
has_suffix→append [] p h = ([], eq_bytes→eq [] p h)
has_suffix→append (a ∷ s) p h = elim (Bool-cases (eq_bytes (a ∷ s) p)) [
  | inl e ↦ ([], eq_bytes→eq (a ∷ s) p e)
  | inr e ↦ let (front, q) = has_suffix→append s p (rw e at h) in (a ∷ front, ap (◌∷◌ a) q)
]

pub has_suffix-append : (front p : Bytes) → has_suffix (front ++ p) p ≡ true
unfolding has_suffix
has_suffix-append [] [] = refl
has_suffix-append [] (b ∷ p) = rw eq_bytes_refl
has_suffix-append (a ∷ front) p = ground (arith, has_suffix-append front p)
