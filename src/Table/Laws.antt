-- ===== src/Table/Laws.antt =====
-- What a lookup finds after each operation, and that keys stay distinct.
use tls_fetch_mcp.Common.{
  Bool, Bool-cases, Option, [], ap, arith, if◌then◌else◌, inl, inr, length, none, refl, some, subst,
  sym, ◌+◌, ◌<◌, ◌∷◌, ◌≡◌, ◌≤◌,
}
use tls_fetch_mcp.Text.{Bytes, eq_bytes, eq_bytes_iff}
use tls_fetch_mcp.Table.{Table, lookup, insert, delete, retain, Distinct}

module _ {V : Type 0} where
  pub lookup-insert :
      (k j : Bytes) (v : V) (t : Table V)
      → lookup j (insert k v t) ≡ (if eq_bytes j k then some v else lookup j t)
  unfolding lookup insert
  lookup-insert k j v [] = ground arith
  lookup-insert k j v ((i, w) ∷ t) =
      ground (arith, eq_bytes_iff j k, eq_bytes_iff j i, eq_bytes_iff k i, lookup-insert k j v t)

  pub lookup-delete :
      (k j : Bytes) (t : Table V)
      → lookup j (delete k t) ≡ (if eq_bytes j k then none else lookup j t)
  unfolding lookup delete
  lookup-delete k j [] = ground arith
  lookup-delete k j ((i, w) ∷ t) =
      ground (arith, eq_bytes_iff j k, eq_bytes_iff j i, eq_bytes_iff k i, lookup-delete k j t)

  -- A value that passes the test, or nothing.
  abbrev pub keep : (V → Bool) → Option V → Option V
  keep f none = none
  keep f (some v) = if f v then some v else none

  lookup-retain-none :
      (f : V → Bool) (j : Bytes) (t : Table V) → lookup j t ≡ none → lookup j (retain f t) ≡ none
  unfolding lookup retain
  lookup-retain-none f j [] h = refl
  lookup-retain-none f j ((i, w) ∷ t) h = ground (arith, lookup-retain-none f j t)

  pub lookup-retain :
      (f : V → Bool) (j : Bytes) (t : Table V)
      → Distinct t
      → lookup j (retain f t) ≡ keep f (lookup j t)
  unfolding lookup retain
  lookup-retain f j [] d = refl
  lookup-retain f j ((i, w) ∷ t) d =
      ground (arith, eq_bytes_iff j i, lookup-retain f j t d.1, lookup-retain-none f j t)

  pub retain-Distinct : (f : V → Bool) (t : Table V) → Distinct t → Distinct (retain f t)
  unfolding retain
  retain-Distinct f [] d = tt
  retain-Distinct f ((i, w) ∷ t) d =
      ground (arith, retain-Distinct f t d.1, lookup-retain-none f i t d.0)

  pub delete-Distinct : (k : Bytes) (t : Table V) → Distinct t → Distinct (delete k t)
  unfolding delete
  delete-Distinct k [] d = tt
  delete-Distinct k ((i, w) ∷ t) d = ground (arith, delete-Distinct k t d.1, lookup-delete k i t)

  pub insert-Distinct : (k : Bytes) (v : V) (t : Table V) → Distinct t → Distinct (insert k v t)
  unfolding insert lookup
  insert-Distinct k v [] d = (refl, tt)
  insert-Distinct k v ((i, w) ∷ t) d =
      ground (
        arith,
        eq_bytes_iff i k,
        eq_bytes_iff k i,
        insert-Distinct k v t d.1,
        lookup-insert k i v t,
      )

  pub length-retain-le : (f : V → Bool) (t : Table V) → length (retain f t) ≤ length t
  unfolding retain
  length-retain-le f [] = omega arith
  length-retain-le f ((i, w) ∷ t) = ground (arith, length-retain-le f t)

  pub length-delete-le : (k : Bytes) (t : Table V) → length (delete k t) ≤ length t
  unfolding delete
  length-delete-le k [] = omega arith
  length-delete-le k ((i, w) ∷ t) = ground (arith, length-delete-le k t)

  -- Deleting a key that is there shortens the table.
  pub length-delete-lt :
      (k : Bytes) (t : Table V) {v : V} → lookup k t ≡ some v → length (delete k t) < length t
  unfolding delete lookup
  length-delete-lt k [] h = cc
  length-delete-lt k ((i, w) ∷ t) {v} h =
      ground (arith, length-delete-lt k t {v = v}, length-delete-le k t)

  pub delete_absent : (k : Bytes) (t : Table V) → lookup k t ≡ none → delete k t ≡ t
  unfolding delete lookup
  delete_absent k [] h = refl
  delete_absent k ((i, w) ∷ t) h = ground (arith, delete_absent k t)

  length-delete_absent :
      (k : Bytes) (t : Table V) → lookup k t ≡ none → length (delete k t) ≡ length t
  length-delete_absent k t h = ap length (delete_absent k t h)

  -- With distinct keys it shortens it by one.
  pub length-delete :
      (k : Bytes) (t : Table V) {v : V}
      → Distinct t
      → lookup k t ≡ some v
      → length (delete k t) + 1 ≡ length t
  unfolding delete lookup
  length-delete k [] d h = cc
  length-delete k ((i, w) ∷ t) {v} d h =
      ground (arith, eq_bytes_iff k i, length-delete k t {v = v} d.1, length-delete_absent k t)

  pub length-insert-le : (k : Bytes) (v : V) (t : Table V) → length (insert k v t) ≤ length t + 1
  unfolding insert
  length-insert-le k v [] = omega arith
  length-insert-le k v ((i, w) ∷ t) = ground (arith, length-insert-le k v t)

  -- A write to a key that is there keeps the number of entries.
  pub length-insert_present :
      (k : Bytes) (v : V) (t : Table V) {w : V}
      → lookup k t ≡ some w
      → length (insert k v t) ≡ length t
  unfolding insert lookup
  length-insert_present k v [] h = cc
  length-insert_present k v ((i, w') ∷ t) {w} h =
      ground (arith, length-insert_present k v t {w = w})

  -- The keys satisfy a predicate.
  abbrev pub AllKeys : (Bytes → Type 0) → Table V → Type 0
  AllKeys P [] = Unit
  AllKeys P ((j, w) ∷ t) = P j × AllKeys P t

  pub retain-AllKeys :
      (P : Bytes → Type 0) (f : V → Bool) (t : Table V) → AllKeys P t → AllKeys P (retain f t)
  unfolding retain
  retain-AllKeys P f [] h = tt
  retain-AllKeys P f ((i, w) ∷ t) h = ground (arith, retain-AllKeys P f t h.1)

  pub delete-AllKeys :
      (P : Bytes → Type 0) (k : Bytes) (t : Table V) → AllKeys P t → AllKeys P (delete k t)
  unfolding delete
  delete-AllKeys P k [] h = tt
  delete-AllKeys P k ((i, w) ∷ t) h = ground (arith, delete-AllKeys P k t h.1)

  pub insert-AllKeys :
      (P : Bytes → Type 0) (k : Bytes) (v : V) (t : Table V)
      → P k
      → AllKeys P t
      → AllKeys P (insert k v t)
  unfolding insert
  insert-AllKeys P k v [] p h = (p, tt)
  insert-AllKeys P k v ((i, w) ∷ t) p h = ground (arith, insert-AllKeys P k v t p h.1)

  pub AllKeys-lookup :
      (P : Bytes → Type 0) (k : Bytes) (t : Table V) {v : V}
      → AllKeys P t
      → lookup k t ≡ some v
      → P k
  unfolding lookup
  AllKeys-lookup P k [] h e = cc
  AllKeys-lookup P k ((i, w) ∷ t) {v} h e = elim (Bool-cases (eq_bytes k i)) [
    | inl same ↦ subst P (sym ((eq_bytes_iff k i).0 same)) h.0
    | inr other ↦ AllKeys-lookup P k t {v = v} h.1 (rw (other, lookup) at e)
  ]
