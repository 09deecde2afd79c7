-- ===== src/Session/Cookies/Summary.antt =====
-- cookieSummary of internal/fetch/session.go against what it counts and lists.
use tls_fetch_mcp.Common.{
  Bool-cases, In, List, Option, [], arith, inl, inr, length, map, none, refl, some, sym, ℕ, ◌++◌,
  ◌+◌, ◌↔◌, ◌∙◌, ◌∷◌, ◌≡◌, ◌⊎◌,
}
use tls_fetch_mcp.Text.{Bytes, eq_bytes, eq_bytes_iff, eq_bytes→eq}
use tls_fetch_mcp.Text.Order.Strings.{
  Increasing, AllDiffer, In-sort_strings, sort_strings-Increasing,
}
use tls_fetch_mcp.Table.{Table, lookup, insert, Distinct}
use tls_fetch_mcp.Table.Laws.{insert-Distinct}
use tls_fetch_mcp.Session.Cookies.{
  AllCookies, Tally, tally_cookie, tally_cookies, tally_all, cookie_summary,
}

abbrev keys : Table (Unit {0}) → List Bytes
keys t = map (λ e. e.0) t

not_In-keys : (k : Bytes) (t : Table (Unit {0})) → lookup k t ≡ none → ¬ In k (keys t)
unfolding lookup
not_In-keys k [] h m = m
not_In-keys k ((j, v) ∷ t) h (inl e) = ground (arith, eq_bytes_iff k j)
not_In-keys k ((j, v) ∷ t) h (inr m) = not_In-keys k t (ground arith) m

keys-AllDiffer : (t : Table (Unit {0})) → Distinct t → AllDiffer (keys t)
keys-AllDiffer [] d = tt
keys-AllDiffer ((j, v) ∷ t) d = (not_In-keys j t d.0, keys-AllDiffer t d.1)

In-insert :
    (x k : Bytes) (t : Table (Unit {0})) → In x (keys (insert k tt t)) ↔ (In x (keys t) ⊎ (x ≡ k))
unfolding insert
In-insert x k [] = (
  (λ m. elim m [ inl e ↦ inr e | inr q ↦ inl q ]),
  (λ m. elim m [ inl q ↦ inr q | inr e ↦ inl e ]),
)
In-insert x k ((j, v) ∷ t) = elim (Bool-cases (eq_bytes k j)) [
  | inl e ↦
      let k_j : k ≡ j = eq_bytes→eq k j e in
      rw (e, insert) ((λ m. inl m), (λ m. elim m [ inl q ↦ q | inr q ↦ inl (q ∙ k_j) ]))
  | inr e ↦
      let rest = In-insert x k t in
      rw (e, insert)
        (
          (λ m. elim m [
            | inl q ↦ inl (inl q)
            | inr q ↦ elim (rest.0 q) [ inl p ↦ inl (inr p) | inr p ↦ inr p ]
          ]),
          (λ m. elim m [
            | inl q ↦ elim q [ inl p ↦ inl p | inr p ↦ inr (rest.1 (inl p)) ]
            | inr q ↦ inr (rest.1 (inr q))
          ]),
        )
]

-- The names that are not empty.
abbrev pub cookie_names : List (Option Bytes) → List Bytes
cookie_names [] = []
cookie_names (none ∷ cookies) = cookie_names cookies
cookie_names (some [] ∷ cookies) = cookie_names cookies
cookie_names (some (c ∷ name) ∷ cookies) = (c ∷ name) ∷ cookie_names cookies

-- All cookies, one list after the other.
abbrev pub joined : AllCookies → List (Option Bytes)
joined [] = []
joined (cookies ∷ rest) = cookies ++ joined rest

tally_cookies-append :
    (a b : List (Option Bytes)) (tally : Tally)
    → tally_cookies (a ++ b) tally ≡ tally_cookies b (tally_cookies a tally)
unfolding tally_cookies
tally_cookies-append [] b tally = refl
tally_cookies-append (x ∷ a) b tally = tally_cookies-append a b (tally_cookie x tally)

tally_all-joined :
    (cookies : AllCookies) (tally : Tally)
    → tally_all cookies tally ≡ tally_cookies (joined cookies) tally
unfolding tally_all tally_cookies
tally_all-joined [] tally = refl
tally_all-joined (c ∷ rest) tally =
    tally_all-joined rest (tally_cookies c tally) ∙ sym (tally_cookies-append c (joined rest) tally)

-- What the loops add to a tally.
tally_cookies_lem :
    (cookies : List (Option Bytes)) (count : ℕ) (names : Table (Unit {0}))
    → Distinct names
    → ((tally_cookies cookies (count, names)).0 ≡ count + length cookies)
      × Distinct (tally_cookies cookies (count, names)).1
      × ((x : Bytes)
          → In x (keys (tally_cookies cookies (count, names)).1)
            ↔ (In x (keys names) ⊎ In x (cookie_names cookies)))
unfolding tally_cookies tally_cookie
tally_cookies_lem [] count names d =
    (omega arith, d, λ x. ((λ m. inl m), (λ m. elim m [ inl q ↦ q | inr q ↦ absurd q ])))
tally_cookies_lem (none ∷ cookies) count names d =
    let (n, e, m) = tally_cookies_lem cookies (count + 1) names d in (omega (arith, n), e, m)
tally_cookies_lem (some [] ∷ cookies) count names d =
    let (n, e, m) = tally_cookies_lem cookies (count + 1) names d in (omega (arith, n), e, m)
tally_cookies_lem (some (c ∷ name) ∷ cookies) count names d =
    let (n, e, m) =
      tally_cookies_lem cookies (count + 1) (insert (c ∷ name) tt names)
        (insert-Distinct (c ∷ name) tt names d) in
    (
      omega (arith, n),
      e,
      λ x.
          let here = In-insert x (c ∷ name) names in
          (
            (λ q. elim ((m x).0 q) [
              | inl p ↦ elim (here.0 p) [ inl r ↦ inl r | inr r ↦ inr (inl r) ]
              | inr p ↦ inr (inr p)
            ]),
            (λ q. (m x).1 (elim q [
              | inl p ↦ inl (here.1 (inl p))
              | inr p ↦ elim p [ inl r ↦ inl (here.1 (inr r)) | inr r ↦ inr r ]
            ])),
          ),
    )

-- The summary counts the cookies of all URLs, those that are nil or have no name included, and lists each
-- name that is not empty once, in increasing order.
pub cookie_summary_lem :
    (cookies : AllCookies)
    → ((cookie_summary cookies).0 ≡ length (joined cookies))
      × Increasing (cookie_summary cookies).1
      × ((name : Bytes)
          → In name (cookie_summary cookies).1 ↔ In name (cookie_names (joined cookies)))
unfolding cookie_summary
cookie_summary_lem cookies =
    let (n, e, m) = tally_cookies_lem (joined cookies) 0 [] tt in
    rw (tally_all-joined cookies (0, []), cookie_summary)
      (
        omega (arith, n),
        sort_strings-Increasing _ (keys-AllDiffer (tally_cookies (joined cookies) (0, [])).1 e),
        λ name.
            let sorted = In-sort_strings name (keys (tally_cookies (joined cookies) (0, [])).1) in
            (
              (λ q. elim ((m name).0 (sorted.0 q)) [ inl p ↦ absurd p | inr p ↦ p ]),
              (λ p. sorted.1 ((m name).1 (inr p))),
            ),
      )
