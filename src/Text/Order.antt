-- ===== src/Text/Order.antt =====
-- The order `<` of Go's strings: byte by byte, and a text before its continuations.
pub mod Strings
use tls_fetch_mcp.Common.{
  Bool, List, [], arith, false, if◌then◌else◌, ltb, refl, true, ◌&&◌, ◌==◌, ◌||◌, ◌∷◌, ◌≡◌,
}
use tls_fetch_mcp.Text.{Bytes}

unfoldable pub less : Bytes → Bytes → Bool
less [] [] = false
less [] (b ∷ t) = true
less (a ∷ s) [] = false
less (a ∷ s) (b ∷ t) = ltb a b || a == b && less s t

pub less_asymm : (s t : Bytes) → less s t ≡ true → less t s ≡ false
unfolding less
less_asymm [] [] h = refl
less_asymm [] (b ∷ t) h = refl
less_asymm (a ∷ s) [] h = cc
less_asymm (a ∷ s) (b ∷ t) h = ground (arith, less_asymm s t)

-- What is not before another text, and that not before a third, is not before the third.
pub less_negtrans : (s t r : Bytes) → less s t ≡ false → less t r ≡ false → less s r ≡ false
unfolding less
less_negtrans [] [] r h k = k
less_negtrans [] (b ∷ t) r h k = cc
less_negtrans (a ∷ s) t [] h k = refl
less_negtrans (a ∷ s) [] (c ∷ r) h k = cc
less_negtrans (a ∷ s) (b ∷ t) (c ∷ r) h k = ground (arith, less_negtrans s t r)

-- Puts a text into a sorted list.
unfoldable pub insert_sorted : Bytes → List Bytes → List Bytes
unfolding less
insert_sorted s [] = s ∷ []
insert_sorted s (t ∷ l) = let rest = insert_sorted s l in if less t s then t ∷ rest else s ∷ t ∷ l

-- `sort.Strings`.
unfoldable pub sort_strings : List Bytes → List Bytes
unfolding insert_sorted
sort_strings [] = []
sort_strings (s ∷ l) = insert_sorted s (sort_strings l)
