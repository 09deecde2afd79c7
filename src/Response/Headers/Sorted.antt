-- ===== src/Response/Headers/Sorted.antt =====
-- sortStringsCaseInsensitive of internal/fetch/response_store.go.
use tls_fetch_mcp.Common.{
  All, All-both, All-of_In, All-weaken, Bool-cases, List, [], false, inl, inr, ◌++◌, ◌∷◌, ◌≡◌,
}
use mathlib.Core.List.{Perm, perm_middle}
use mathlib.Core.List.Perm
use tls_fetch_mcp.Text.{Bytes}
use tls_fetch_mcp.Text.Case.{Unicode, to_lower}
use tls_fetch_mcp.Text.Order.{less_asymm, less_negtrans}
use tls_fetch_mcp.Response.Headers.{reverse_onto, before, sink, sort_from, sort_case_insensitive}

module _ (u : Unicode) where
  -- The first does not come before the second.
  abbrev NotBefore : Bytes → Bytes → Type 0
  NotBefore x y = before u x y ≡ false

  -- No text comes before one that stands to its left.
  abbrev pub Ascending : List Bytes → Type 0
  Ascending [] = Unit
  Ascending (x ∷ l) = All (λ y. NotBefore y x) l × Ascending l

  abbrev Descending : List Bytes → Type 0
  Descending [] = Unit
  Descending (x ∷ l) = All (NotBefore x) l × Descending l

  sink-All :
      (P : Bytes → Type 0) (value : Bytes) (l : List Bytes)
      → P value
      → All P l
      → All P (sink u value l)
  unfolding sink
  sink-All P value [] p h = (p, tt)
  sink-All P value (last ∷ l) p h = elim (Bool-cases (before u value last)) [
    | inl e ↦ rw (e, sink) (h.0, sink-All P value l p h.1)
    | inr e ↦ rw (e, sink) (p, h)
  ]

  sink-Descending : (value : Bytes) (l : List Bytes) → Descending l → Descending (sink u value l)
  unfolding sink
  sink-Descending value [] h = (tt, tt)
  sink-Descending value (last ∷ l) h = elim (Bool-cases (before u value last)) [
    | inl e ↦
        rw (e, sink)
          (
            sink-All (NotBefore last) value l (less_asymm (to_lower u value) (to_lower u last) e)
                h.0,
            sink-Descending value l h.1,
          )
    | inr e ↦
        rw (e, sink)
          (
            (
              e,
              All-weaken (NotBefore last) (NotBefore value) l
                  (λ y. less_negtrans (to_lower u value) (to_lower u last) (to_lower u y) e) h.0,
            ),
            h,
          )
  ]

  reversed-Ascending :
      (sorted right : List Bytes)
      → Descending sorted
      → Ascending right
      → All (λ x. All (λ z. NotBefore z x) right) sorted
      → Ascending (reverse_onto sorted right)
  reversed-Ascending [] right d a h = a
  reversed-Ascending (x ∷ sorted) right d a h =
      reversed-Ascending sorted (x ∷ right) d.1 (h.0, a)
        (All-both (NotBefore x) (λ y. All (λ z. NotBefore z y) right) sorted d.0 h.1)

  sort_from-Ascending :
      (sorted values : List Bytes) → Descending sorted → Ascending (sort_from u sorted values)
  unfolding sort_from
  sort_from-Ascending sorted [] d =
      reversed-Ascending sorted [] d tt (All-of_In (λ x. Unit) sorted (λ a m. tt))
  sort_from-Ascending sorted (value ∷ values) d =
      sort_from-Ascending (sink u value sorted) values (sink-Descending value sorted d)

  sink-Perm : (value : Bytes) (l : List Bytes) → Perm (sink u value l) (value ∷ l)
  unfolding sink
  sink-Perm value [] = Perm.refl (value ∷ [])
  sink-Perm value (last ∷ l) = elim (Bool-cases (before u value last)) [
    | inl e ↦
        rw (e, sink) (Perm.trans (Perm.cons last (sink-Perm value l)) (Perm.swap value last l))
    | inr e ↦ rw (e, sink) (Perm.refl (value ∷ last ∷ l))
  ]

  reversed-Perm : (sorted right : List Bytes) → Perm (reverse_onto sorted right) (sorted ++ right)
  reversed-Perm [] right = Perm.refl right
  reversed-Perm (x ∷ sorted) right =
      Perm.trans (reversed-Perm sorted (x ∷ right)) (perm_middle sorted right)

  sort_from-Perm :
      (sorted values : List Bytes) → Perm (sort_from u sorted values) (sorted ++ values)
  unfolding sort_from
  sort_from-Perm sorted [] = reversed-Perm sorted []
  sort_from-Perm sorted (value ∷ values) =
      Perm.trans (sort_from-Perm (sink u value sorted) values) (
        Perm.trans (Perm.append_right values (sink-Perm value sorted))
          (Perm.symm (perm_middle sorted values)))

  -- The sort yields the same texts, each as often as before, in an order in which no text comes before
  -- one to its left when both are lowered.
  pub sort_case_insensitive-Ascending :
      (values : List Bytes)
      → Ascending (sort_case_insensitive u values) × Perm (sort_case_insensitive u values) values
  unfolding sort_case_insensitive
  sort_case_insensitive-Ascending values =
      (sort_from-Ascending [] values tt, sort_from-Perm [] values)
