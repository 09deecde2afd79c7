-- ===== src/Table.antt =====
-- Go's maps with string keys, as association lists: the order of the list is the order in which a
-- `range` loop meets the entries. Go leaves that order open.
use tls_fetch_mcp.Common.{Bool, List, Option, [], if◌then◌else◌, none, some, ◌∷◌, ◌≡◌}
pub mod Laws
pub mod Expiry
use tls_fetch_mcp.Text.{Bytes, eq_bytes}

abbrev pub Table : Type 0 → Type 0
Table V = List (Bytes × V)

module _ {V : Type 0} where
  -- `v, exists := m[k]`.
  unfoldable pub lookup : Bytes → Table V → Option V
  lookup k [] = none
  lookup k ((j, v) ∷ t) = if eq_bytes k j then some v else lookup k t

  -- `m[k] = v`.
  unfoldable pub insert : Bytes → V → Table V → Table V
  insert k v [] = (k, v) ∷ []
  insert k v ((j, w) ∷ t) = if eq_bytes k j then (j, v) ∷ t else (j, w) ∷ insert k v t

  -- `delete(m, k)`.
  unfoldable pub delete : Bytes → Table V → Table V
  delete k [] = []
  delete k ((j, w) ∷ t) = let rest = delete k t in if eq_bytes k j then rest else (j, w) ∷ rest

  -- A `range` loop that deletes the entries whose value fails the test.
  unfoldable pub retain : (V → Bool) → Table V → Table V
  retain f [] = []
  retain f ((j, w) ∷ t) = let rest = retain f t in if f w then (j, w) ∷ rest else rest

  -- No key twice.
  abbrev pub Distinct : Table V → Type 0
  Distinct [] = Unit
  Distinct ((j, w) ∷ t) = (lookup j t ≡ none) × Distinct t
