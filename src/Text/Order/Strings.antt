-- ===== src/Text/Order/Strings.antt =====
-- `sort.Strings` on texts that differ from each other.
use tls_fetch_mcp.Common.{
  All, All-weaken, Bool-cases, In, List, [], arith, false, inl, inr, refl, true, ◌↔◌, ◌∷◌, ◌≡◌, ◌⊎◌,
}
use tls_fetch_mcp.Text.{Bytes}
use tls_fetch_mcp.Text.Order.{less, insert_sorted, sort_strings}

less_total : (s t : Bytes) → less s t ≡ false → less t s ≡ false → s ≡ t
unfolding less
less_total [] [] h k = refl
less_total [] (b ∷ t) h k = cc
less_total (a ∷ s) [] h k = cc
less_total (a ∷ s) (b ∷ t) h k =
    let e : s ≡ t = less_total s t (ground arith) (ground arith) in
    let q : a ≡ b = ground arith in rw (e, q)

less_trans : (s t r : Bytes) → less s t ≡ true → less t r ≡ true → less s r ≡ true
unfolding less
less_trans [] [] r h k = cc
less_trans [] (b ∷ t) [] h k = cc
less_trans [] (b ∷ t) (c ∷ r) h k = refl
less_trans (a ∷ s) [] r h k = cc
less_trans (a ∷ s) (b ∷ t) [] h k = cc
less_trans (a ∷ s) (b ∷ t) (c ∷ r) h k = ground (arith, less_trans s t r)

-- Each text comes before all that follow it.
abbrev pub Increasing : List Bytes → Type 0
Increasing [] = Unit
Increasing (s ∷ l) = All (λ t. less s t ≡ true) l × Increasing l

insert_sorted-All :
    (P : Bytes → Type 0) (s : Bytes) (l : List Bytes) → P s → All P l → All P (insert_sorted s l)
unfolding insert_sorted
insert_sorted-All P s [] p h = (p, tt)
insert_sorted-All P s (t ∷ l) p h = elim (Bool-cases (less t s)) [
  | inl e ↦ rw (e, insert_sorted) (h.0, insert_sorted-All P s l p h.1)
  | inr e ↦ rw (e, insert_sorted) (p, h)
]

insert_sorted-Increasing :
    (s : Bytes) (l : List Bytes) → ¬ In s l → Increasing l → Increasing (insert_sorted s l)
unfolding insert_sorted
insert_sorted-Increasing s [] new h = (tt, tt)
insert_sorted-Increasing s (t ∷ l) new h = elim (Bool-cases (less t s)) [
  | inl e ↦
      rw (e, insert_sorted)
        (
          insert_sorted-All (λ r. less t r ≡ true) s l e h.0,
          insert_sorted-Increasing s l (λ m. new (inr m)) h.1,
        )
  | inr e ↦
      let first : less s t ≡ true = elim (Bool-cases (less s t)) [
        | inl q ↦ q
        | inr q ↦ absurd (new (inl (less_total s t q e)))
      ] in
      rw (e, insert_sorted)
        (
          (
            first,
            All-weaken (λ r. less t r ≡ true) (λ r. less s r ≡ true) l (λ r. less_trans s t r first)
                h.0,
          ),
          h,
        )
]

In-insert_sorted : (x s : Bytes) (l : List Bytes) → In x (insert_sorted s l) ↔ ((x ≡ s) ⊎ In x l)
unfolding insert_sorted
In-insert_sorted x s [] = ((λ m. m), (λ m. m))
In-insert_sorted x s (t ∷ l) = elim (Bool-cases (less t s)) [
  | inl e ↦
      let rest = In-insert_sorted x s l in
      rw (e, insert_sorted)
        (
          (λ m. elim m [
            | inl q ↦ inr (inl q)
            | inr q ↦ elim (rest.0 q) [ inl p ↦ inl p | inr p ↦ inr (inr p) ]
          ]),
          (λ m. elim m [
            | inl p ↦ inr (rest.1 (inl p))
            | inr p ↦ elim p [ inl q ↦ inl q | inr q ↦ inr (rest.1 (inr q)) ]
          ]),
        )
  | inr e ↦ rw (e, insert_sorted) ((λ m. m), (λ m. m))
]

abbrev pub AllDiffer : List Bytes → Type 0
AllDiffer [] = Unit
AllDiffer (s ∷ l) = (¬ In s l) × AllDiffer l

pub In-sort_strings : (x : Bytes) (l : List Bytes) → In x (sort_strings l) ↔ In x l
unfolding sort_strings
In-sort_strings x [] = ((λ m. m), (λ m. m))
In-sort_strings x (s ∷ l) =
    let here = In-insert_sorted x s (sort_strings l) in
    let rest = In-sort_strings x l in
    (
      (λ m. elim (here.0 m) [ inl p ↦ inl p | inr p ↦ inr (rest.0 p) ]),
      (λ m. here.1 (elim m [ inl p ↦ inl p | inr p ↦ inr (rest.1 p) ])),
    )

pub sort_strings-Increasing : (l : List Bytes) → AllDiffer l → Increasing (sort_strings l)
unfolding sort_strings
sort_strings-Increasing [] d = tt
sort_strings-Increasing (s ∷ l) d =
    insert_sorted-Increasing s (sort_strings l) (λ m. d.0 ((In-sort_strings s l).0 m))
      (sort_strings-Increasing l d.1)
