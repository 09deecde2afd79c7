-- ===== src/Response/Eviction.antt =====
-- evictOldestResponseLocked and the loop around it in storeResponse.
use tls_fetch_mcp.Common.{
  Bool-cases, Option-cases, [], ap, arith, false, inl, inr, leb_ℤ, length, ltb_ℤ-cases, max, none,
  pos, refl, some, suc, sym, true, zero, ℕ, ℤ, ◌+◌, ◌<ℤ◌, ◌∙◌, ◌∷◌, ◌≡◌, ◌≢◌, ◌≤ℤ◌, ◌≤◌, ◌⊎◌,
}
use tls_fetch_mcp.Text.{Bytes, eq_bytes, eq_bytes_iff, eq_bytes_refl}
use tls_fetch_mcp.Clock.{Time}
use tls_fetch_mcp.Table.{Table, lookup, delete, Distinct}
use tls_fetch_mcp.Table.Laws.{
  AllKeys, AllKeys-lookup, length-delete, lookup-delete, delete-Distinct, delete-AllKeys,
}
use tls_fetch_mcp.Fetcher.{StoredResponse}
use tls_fetch_mcp.Response.{oldest_from, evict_oldest, evict_while_full}

abbrev pub IsNamed : Bytes → Type 0
IsNamed id = eq_bytes id [] ≡ false

-- No entry is older than the time.
abbrev pub NoneBefore : Time → Table StoredResponse → Type 0
NoneBefore o t = (j : Bytes) (s : StoredResponse) → lookup j t ≡ some s → o ≤ℤ s.created_at

-- The identifier and the time are the given ones or those of an entry.
abbrev Source : Bytes → Time → Table StoredResponse → Bytes → Time → Type 0
Source id oldest t x o =
    ((x ≡ id) × (o ≡ oldest)) ⊎ ((r : StoredResponse) × (lookup x t ≡ some r) × (r.created_at ≡ o))

module _ (i : Bytes) (w : StoredResponse) (t : Table StoredResponse) where
  lookup-here : (x : Bytes) → x ≡ i → lookup x ((i, w) ∷ t) ≡ some w
  unfolding lookup
  lookup-here x e = rw ((eq_bytes_iff x i).1 e)

  lookup-there :
      (x : Bytes) {r : StoredResponse}
      → lookup i t ≡ none
      → lookup x t ≡ some r
      → lookup x ((i, w) ∷ t) ≡ some r
  unfolding lookup
  lookup-there x d e = ground (arith, eq_bytes_iff x i)

  NoneBefore-cons : (o : Time) → o ≤ℤ w.created_at → NoneBefore o t → NoneBefore o ((i, w) ∷ t)
  unfolding lookup
  NoneBefore-cons o h all j s e = ground (arith, all j s)

-- The loop ends at an entry, or at the one that it was given, and none is older.
oldest_from_lem :
    (id : Bytes) (oldest : Time) (t : Table StoredResponse)
    → IsNamed id
    → AllKeys IsNamed t
    → Distinct t
    → (o : Time) × Source id oldest t (oldest_from id oldest t) o × (o ≤ℤ oldest) × NoneBefore o t
unfolding oldest_from
oldest_from_lem id oldest [] n k d =
    (oldest, inl (refl, refl), omega arith, λ j s e. absurd (unfold lookup in ground arith))
oldest_from_lem id oldest ((i, w) ∷ t) n k d = elim (ltb_ℤ-cases w.created_at oldest) [
  | inl (older, lt) ↦
      let (o, src, le, all) = oldest_from_lem i w.created_at t k.0 k.1 d.1 in
      rw (n, older)
        (
          o,
          elim src [
            | inl (e, q) ↦ inr (w, lookup-here i w t _ e, sym q)
            | inr (r, e, q) ↦ inr (r, lookup-there i w t _ d.0 e, q)
          ],
          omega arith,
          NoneBefore-cons i w t o le all,
        )
  | inr (younger, ge) ↦
      let (o, src, le, all) = oldest_from_lem id oldest t n k.1 d.1 in
      rw (n, younger)
        (
          o,
          elim src [
            | inl (e, q) ↦ inl (e, q)
            | inr (r, e, q) ↦ inr (r, lookup-there i w t _ d.0 e, q)
          ],
          le,
          NoneBefore-cons i w t o (omega arith) all,
        )
]

-- One eviction deletes an entry than which none is older.
evict_oldest_lem :
    (t : Table StoredResponse)
    → t ≢ []
    → AllKeys IsNamed t
    → Distinct t
    → (x : Bytes) × (r : StoredResponse) × (lookup x t ≡ some r)
      × NoneBefore r.created_at t
      × (evict_oldest t ≡ delete x t)
unfolding evict_oldest oldest_from
evict_oldest_lem [] ne k d = absurd (ne refl)
evict_oldest_lem ((i, w) ∷ t) ne k d =
    let (o, src, le, all) = oldest_from_lem i w.created_at t k.0 k.1 d.1 in
    elim src [
      | inl (e, q) ↦ (
        i,
        w,
        lookup-here i w t i refl,
        NoneBefore-cons i w t w.created_at (omega arith) (rw q at all),
        rw (e, k.0),
      )
      | inr (r, e, q) ↦
          let x = oldest_from i w.created_at t in
          let at_x : lookup x ((i, w) ∷ t) ≡ some r = lookup-there i w t x d.0 e in
          let named : IsNamed x = AllKeys-lookup IsNamed x ((i, w) ∷ t) k at_x in
          (
            x,
            r,
            at_x,
            (let before : NoneBefore o ((i, w) ∷ t) = NoneBefore-cons i w t o le all in
                rw (← q) at before),
            rw named,
          )
    ]

-- What evictions leave: entries of the table, and whatever is gone is not newer than anything left.
pub record Evicted (t kept : Table StoredResponse) : Type 0 where
  pub names : AllKeys IsNamed kept
  pub distinct : Distinct kept
  pub from_old : (j : Bytes) (s : StoredResponse) → lookup j kept ≡ some s → lookup j t ≡ some s
  pub oldest_gone :
      (j : Bytes) (s : StoredResponse)
      → lookup j t ≡ some s
      → (lookup j kept ≡ some s) ⊎ ((lookup j kept ≡ none) × NoneBefore s.created_at kept)

Evicted-refl : (t : Table StoredResponse) → AllKeys IsNamed t → Distinct t → Evicted t t
Evicted-refl t k d = record {
  names = k;
  distinct = d;
  from_old = λ j s e. e;
  oldest_gone = λ j s e. inl e;
}

module _ (t : Table StoredResponse) (x : Bytes) (r : StoredResponse) (at_x : lookup x t ≡ some r)
    (oldest : NoneBefore r.created_at t) (kept : Table StoredResponse)
    (later : Evicted (delete x t) kept) where
  from_whole : (j : Bytes) (s : StoredResponse) → lookup j kept ≡ some s → lookup j t ≡ some s
  from_whole j s e = ground (arith, later.from_old j s e, lookup-delete x j t)

  x_gone : lookup x kept ≡ none
  x_gone = elim (Option-cases (lookup x kept)) [
    | inl e ↦ e
    | inr (s, e) ↦
        absurd (ground (arith, later.from_old x s e, lookup-delete x x t, eq_bytes_refl x))
  ]

  -- An eviction before others.
  Evicted-step : Evicted t kept
  Evicted-step = record {
    names = later.names;
    distinct = later.distinct;
    from_old = from_whole;
    oldest_gone = λ j s e. elim (Bool-cases (eq_bytes j x)) [
      | inl same ↦
          let j_x : j ≡ x = (eq_bytes_iff j x).0 same in
          let r_s : r ≡ s = cc in
          inr (
            ap (λ k. lookup k kept) j_x ∙ x_gone,
            λ i q m.
                (let le : r.created_at ≤ℤ q.created_at = oldest i q (from_whole i q m) in
                  rw r_s at le),
          )
      | inr other ↦ later.oldest_gone j s (rw (lookup-delete x j t, other) e)
    ];
  }

full-ne-nil :
    (max : ℤ) (t : Table StoredResponse) → pos 0 <ℤ max → leb_ℤ max (pos (length t)) ≡ true → t ≢ []
full-ne-nil max t positive full e = let n : length t ≡ 0 = ap length e in ground arith

one_left :
    (max : ℤ) (t t' kept : Table StoredResponse)
    → leb_ℤ max (pos (length t)) ≡ true
    → length t' + 1 ≡ length t
    → pos (length kept) <ℤ max
    → (kept ≡ t') ⊎ ((pos (length kept + 1) ≡ max) × (max ≤ℤ pos (length t')))
    → pos (length kept + 1) ≡ max
one_left max t t' kept full shorter fits (inr e) = e.0
one_left max t t' kept full shorter fits (inl e) =
    let n : length kept ≡ length t' = ap length e in ground arith

-- With as many rounds as there are entries the loop ends; it evicts only when there is no room, and
-- then only until there is room for one more.
pub evict_while_full_lem :
    (fuel : ℕ) (max : ℤ) (t : Table StoredResponse)
    → length t ≤ fuel
    → pos 0 <ℤ max
    → AllKeys IsNamed t
    → Distinct t
    → (kept : Table StoredResponse) × (evict_while_full fuel max t ≡ some kept)
      × (pos (length kept) <ℤ max)
      × ((kept ≡ t) ⊎ ((pos (length kept + 1) ≡ max) × (max ≤ℤ pos (length t))))
      × Evicted t kept
unfolding evict_while_full
evict_while_full_lem zero max t le positive k d =
    (t, ground arith, ground arith, inl refl, Evicted-refl t k d)
evict_while_full_lem (suc fuel) max t le positive k d =
    elim (Bool-cases (leb_ℤ max (pos (length t)))) [
      | inr room ↦ (t, ground arith, ground arith, inl refl, Evicted-refl t k d)
      | inl full ↦
          let (x, r, at_x, oldest, e) = evict_oldest_lem t (full-ne-nil max t positive full) k d in
          let shorter : length (delete x t) + 1 ≡ length t = length-delete x t d at_x in
          let (kept, q, fits, how, gone) =
            evict_while_full_lem fuel max (delete x t) (omega arith) positive
              (delete-AllKeys IsNamed x t k) (delete-Distinct x t d) in
          let q' : evict_while_full fuel max (evict_oldest t) ≡ some kept =
            ap (evict_while_full fuel max) e ∙ q in
          (
            kept,
            ground arith,
            fits,
            inr (one_left max t (delete x t) kept full shorter fits how, ground arith),
            Evicted-step t x r at_x oldest kept gone,
          )
    ]
