-- ===== src/Policy/Hosts.antt =====
-- hostAllowed of internal/fetch/policy.go. An entry names its own host, or "*." and a domain every host
-- below that domain.
use tls_fetch_mcp.Common.{
  Bool, Bool-cases, List, [], arith, drop, false, inl, inr, not, refl, sym, true, ◌&&◌, ◌++◌, ◌↔◌,
  ◌∷◌, ◌≡◌, ◌≢◌, ◌⊎◌,
}
use tls_fetch_mcp.Text.{
  Bytes, ascii, eq_bytes, has_prefix, has_suffix, eq_bytes_iff, eq_bytes→eq, eq_bytes_refl,
  has_prefix→append, has_prefix-append, has_suffix→append, has_suffix-append,
}
use tls_fetch_mcp.Policy.{Policy, matches_any, allowed_by, host_allowed}

-- What an entry of the list allows.
abbrev pub Allows : Bytes → Bytes → Type 0
Allows entry host =
    (entry ≡ host)
    ⊎ ((front : Bytes) × (domain : Bytes) × (domain ≢ [])
        × (entry ≡ ascii "*." ++ domain)
        × (host ≡ front ++ (ascii "." ++ domain)))

-- Some entry of the list allows the host.
abbrev pub SomeAllows : List Bytes → Bytes → Type 0
SomeAllows [] host = ⊥
SomeAllows (entry ∷ rest) host = Allows entry host ⊎ SomeAllows rest host

abbrev is_wildcard : Bytes → Bytes → Bool
is_wildcard host allowed =
    has_prefix allowed (ascii "*.")
    && not (eq_bytes (drop 2 allowed) [])
    && has_suffix host (ascii "." ++ drop 2 allowed)

is_wildcard-Allows : (host entry : Bytes) → is_wildcard host entry ≡ true → Allows entry host
is_wildcard-Allows host entry h =
    let suffix : has_suffix host (ascii "." ++ drop 2 entry) ≡ true = ground arith in
    let (front, e) = has_suffix→append host (ascii "." ++ drop 2 entry) suffix in
    inr (
      front,
      drop 2 entry,
      (λ e'. ground (arith, (eq_bytes_iff (drop 2 entry) []).1 e')),
      has_prefix→append entry (ascii "*.") (ground arith),
      e,
    )

eq_bytes-nil : (s : Bytes) → s ≢ [] → eq_bytes s [] ≡ false
eq_bytes-nil s ne = ground (arith, eq_bytes→eq s [])

wildcard-is_wildcard :
    (front domain : Bytes)
    → domain ≢ []
    → is_wildcard (front ++ (ascii "." ++ domain)) (ascii "*." ++ domain) ≡ true
wildcard-is_wildcard front domain ne = rw (
  has_prefix-append (ascii "*.") domain,
  eq_bytes-nil domain ne,
  has_suffix-append front (ascii "." ++ domain),
)

is_wildcard_of :
    (entry host front domain : Bytes)
    → entry ≡ ascii "*." ++ domain
    → host ≡ front ++ (ascii "." ++ domain)
    → domain ≢ []
    → is_wildcard host entry ≡ true
is_wildcard_of entry host front domain e e' ne = rw (e, e') (wildcard-is_wildcard front domain ne)

matches_any_sound : (host : Bytes) (l : List Bytes) → matches_any host l ≡ true → SomeAllows l host
unfolding matches_any
matches_any_sound host [] h = cc
matches_any_sound host (entry ∷ rest) h = elim (Bool-cases (eq_bytes host entry)) [
  | inl e ↦ inl (inl (sym (eq_bytes→eq host entry e)))
  | inr e ↦ elim (Bool-cases (is_wildcard host entry)) [
    | inl w ↦ inl (is_wildcard-Allows host entry w)
    | inr w ↦ inr (matches_any_sound host rest (ground arith))
  ]
]

matches_any_complete :
    (host : Bytes) (l : List Bytes) → SomeAllows l host → matches_any host l ≡ true
unfolding matches_any
matches_any_complete host [] m = elim m [ ]
matches_any_complete host (entry ∷ rest) (inr m) = ground (arith, matches_any_complete host rest m)
matches_any_complete host (entry ∷ rest) (inl (inl e)) = rw (e, eq_bytes_refl) refl
matches_any_complete host (entry ∷ rest) (inl (inr (front, domain, ne, e, e'))) =
    ground (arith, is_wildcard_of entry host front domain e e' ne)

allowed_by_iff :
    (l : List Bytes) (host : Bytes) → (allowed_by l host ≡ true) ↔ ((l ≡ []) ⊎ SomeAllows l host)
unfolding allowed_by
allowed_by_iff [] host = ((λ _. inl refl), (λ _. refl))
allowed_by_iff (a ∷ l) host = (
  (λ h. inr (matches_any_sound host (a ∷ l) h)),
  (λ m. elim m [ inl e ↦ cc | inr s ↦ matches_any_complete host (a ∷ l) s ]),
)

-- A host passes exactly when the list is empty or some entry allows it: the entry is the host itself,
-- or it is "*." before a domain that is not empty and the host ends in a dot and that domain.
pub host_allowed_iff :
    (p : Policy) (host : Bytes)
    → (host_allowed p host ≡ true) ↔ ((p.allowed_hosts ≡ []) ⊎ SomeAllows p.allowed_hosts host)
unfolding host_allowed
host_allowed_iff p host = allowed_by_iff p.allowed_hosts host
