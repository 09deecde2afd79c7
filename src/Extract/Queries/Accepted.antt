-- ===== src/Extract/Queries/Accepted.antt =====
-- validateExtractQueries of internal/fetch/extract.go: what passes.
use tls_fetch_mcp.Common.{
  All, All-both, All-of_In, All-weaken, List, [], ap, arith, false, inl, inr, length, map, refl,
  subst, sym, true, ℕ, ◌+◌, ◌↔◌, ◌∙◌, ◌∷◌, ◌≡◌, ◌≢◌, ◌≤◌,
}
use tls_fetch_mcp.Text.{Bytes, one_of, eq_bytes_iff}
use tls_fetch_mcp.Text.Case.{Unicode}
use tls_fetch_mcp.Text.Utf8.{valid}
use tls_fetch_mcp.Errors.{ok, Result-cases}
use tls_fetch_mcp.Extract.Types.{Query}
use tls_fetch_mcp.Extract.Queries.{trimmed, check_query, validate_from, validate_queries}

-- A name is there, as is a selector, and both are UTF-8 of a bounded length.
abbrev pub IsGood : Query → Type 0
IsGood q =
    (q.name ≢ [])
    × (valid q.name ≡ true)
    × (length q.name ≤ 128)
    × (q.selector ≢ [])
    × (valid q.selector ≡ true)
    × (length q.selector ≤ 2048)

-- No two queries have the same name.
abbrev pub HaveDistinctNames : List Query → Type 0
HaveDistinctNames [] = Unit
HaveDistinctNames (q ∷ qs) = All (λ r. r.name ≢ q.name) qs × HaveDistinctNames qs

-- The name is none of those before.
abbrev IsNew : List Bytes → Query → Type 0
IsNew names q = one_of q.name names ≡ false

check_query_iff :
    (i : ℕ) (names : List Bytes) (q : Query)
    → (check_query i names q ≡ ok tt) ↔ (IsGood q × IsNew names q)
unfolding check_query
check_query_iff i names q = ground (arith, eq_bytes_iff q.name [], eq_bytes_iff q.selector [])

-- A name that is new behind another name is new, and it is not that name.
IsNew-cons_iff :
    (names : List Bytes) (q r : Query)
    → IsNew (q.name ∷ names) r ↔ ((r.name ≢ q.name) × IsNew names r)
IsNew-cons_iff names q r = ground (arith, eq_bytes_iff r.name q.name)

-- The queries are good, and their names new and distinct.
abbrev AreAccepted : List Bytes → List Query → Type 0
AreAccepted names qs = All IsGood qs × HaveDistinctNames qs × All (IsNew names) qs

AreAccepted-cons :
    (names : List Bytes) (q : Query) (qs : List Query)
    → IsGood q
    → IsNew names q
    → AreAccepted (q.name ∷ names) qs
    → AreAccepted names (q ∷ qs)
AreAccepted-cons names q qs good new (goods, distinct, news) =
    let split = λ (r : Query). IsNew-cons_iff names q r in
    (
      (good, goods),
      (
        All-weaken (IsNew (q.name ∷ names)) (λ r. r.name ≢ q.name) qs (λ r h. ((split r).0 h).0)
            news,
        distinct,
      ),
      (new, All-weaken (IsNew (q.name ∷ names)) (IsNew names) qs (λ r h. ((split r).0 h).1) news),
    )

AreAccepted-tail :
    (names : List Bytes) (q : Query) (qs : List Query)
    → AreAccepted names (q ∷ qs)
    → AreAccepted (q.name ∷ names) qs
AreAccepted-tail names q qs ((good, goods), (others, distinct), (new, news)) =
    let split = λ (r : Query). IsNew-cons_iff names q r in
    (
      goods,
      distinct,
      All-weaken (λ r. (r.name ≢ q.name) × IsNew names r) (IsNew (q.name ∷ names)) qs
          (λ r h. (split r).1 h) (All-both (λ r. r.name ≢ q.name) (IsNew names) qs others news),
    )

module _ (u : Unicode) where
  validate_from_sound :
      (i : ℕ) (names : List Bytes) (qs rs : List Query)
      → validate_from u i names qs ≡ ok rs
      → (rs ≡ map (trimmed u) qs) × AreAccepted names rs
  unfolding validate_from
  validate_from_sound i names [] rs h = let e : rs ≡ [] = cc in rw e (refl, (tt, tt, tt))
  validate_from_sound i names (q ∷ qs) rs h =
      let t = trimmed u q in
      elim (Result-cases (check_query i names t)) [
        | inr (e, c) ↦ absurd (ground arith)
        | inl (_, c) ↦ elim (Result-cases (validate_from u (i + 1) (t.name ∷ names) qs)) [
          | inr (e, v) ↦ absurd (ground arith)
          | inl (rest, v) ↦
              let shape : rs ≡ t ∷ rest = ground arith in
              let (good, new) = (check_query_iff i names t).0 c in
              let (e, a) = validate_from_sound (i + 1) (t.name ∷ names) qs rest v in
              rw shape (ap (◌∷◌ t) e, AreAccepted-cons names t rest good new a)
        ]
      ]

  validate_from_complete :
      (i : ℕ) (names : List Bytes) (qs : List Query)
      → AreAccepted names (map (trimmed u) qs)
      → validate_from u i names qs ≡ ok (map (trimmed u) qs)
  unfolding validate_from
  validate_from_complete i names [] a = refl
  validate_from_complete i names (q ∷ qs) a =
      let t = trimmed u q in
      let passes : check_query i names t ≡ ok tt = (check_query_iff i names t).1 (a.0.0, a.2.0) in
      let rest =
        validate_from_complete (i + 1) (t.name ∷ names) qs
          (AreAccepted-tail names t (map (trimmed u) qs) a) in
      rw (passes, validate_from) (rw (rest, validate_from) refl)

  -- A list of queries is accepted exactly when there are between one and sixteen of them, each has, once
  -- it is trimmed, a name of at most 128 bytes and a selector of at most 2048 bytes, both of them UTF-8 and
  -- not empty, and no two names are the same; what is returned is the trimmed list.
  pub validate_queries_iff :
      (qs rs : List Query)
      → (validate_queries u qs ≡ ok rs) ↔ (
          (1 ≤ length qs)
          × (length qs ≤ 16)
          × (rs ≡ map (trimmed u) qs)
          × All IsGood rs
          × HaveDistinctNames rs)
  unfolding validate_queries
  validate_queries_iff qs rs = (
    (λ h.
        let loop : validate_from u 0 [] qs ≡ ok rs = ground arith in
        let (e, (goods, distinct, _)) = validate_from_sound 0 [] qs rs loop in
        (ground arith, ground arith, e, goods, distinct)),
    (λ (some_, few, e, goods, distinct).
        let loop : validate_from u 0 [] qs ≡ ok rs =
          validate_from_complete 0 [] qs
            (subst (AreAccepted []) e (goods, distinct, All-of_In (IsNew []) rs (λ q m. refl)))
          ∙ ap ok (sym e) in
        ground arith),
  )
