-- ===== src/Extract/Fit/Removed.antt =====
-- The removal of values in fitExtractionOutput of internal/fetch/extract.go: from the last value of the
-- last result on.
use tls_fetch_mcp.Common.{
  List, [], ap, arith, false, if◌then◌else◌, inl, inr, length, length-take, ltb, none, refl, some,
  suc, sym, take, true, zero, ℕ, ℕ-cases, ◌-◌, ◌<◌, ◌∙◌, ◌∷◌, ◌≡◌, ◌≤◌, ◌⊎◌,
}
use tls_fetch_mcp.Extract.Types.{ExtractedValue, QueryResult}
use tls_fetch_mcp.Extract.Fit.{shortened, remove_last, value_count}

-- The result cut to so many values, if it has more.
unfoldable pub kept : ℕ → QueryResult → QueryResult
kept n r =
    if ltb n (length r.values)
    then record r {
      values = take n r.values;
      returned_count = length (take n r.values);
      limited = true;
    }
    else r

-- The first so many values of all results, in their order.
unfoldable pub keep : ℕ → List QueryResult → List QueryResult
unfolding kept
keep n [] = []
keep n (r ∷ rs) = kept n r ∷ keep (n - length r.values) rs

-- Keeping every value changes nothing.
pub keep_all : (n : ℕ) (rs : List QueryResult) → value_count rs ≤ n → keep n rs ≡ rs
unfolding keep value_count
keep_all n [] h = refl
keep_all n (r ∷ rs) h =
    let whole : ltb n (length r.values) ≡ false = ground arith in
    rw whole (ap (◌∷◌ r) (keep_all (n - length r.values) rs (omega arith)))

pub value_count-keep :
    (n : ℕ) (rs : List QueryResult) → n ≤ value_count rs → value_count (keep n rs) ≡ n
unfolding keep value_count
value_count-keep n [] h = omega arith
value_count-keep n (r ∷ rs) h =
    ground (arith, length-take n r.values, value_count-keep (n - length r.values) rs)

take-take : {A : Type 0} (m n : ℕ) (xs : List A) → m ≤ n → take m (take n xs) ≡ take m xs
take-take zero n xs h = refl
take-take (suc m) zero xs h = absurd (omega arith)
take-take (suc m) (suc n) [] h = refl
take-take (suc m) (suc n) (x ∷ xs) h = ap (◌∷◌ x) (take-take m n xs (omega arith))

-- The last result that has values is the first of the list.
remove_here :
    (r : QueryResult) (values : List ExtractedValue) (rs : List QueryResult) (n : ℕ)
    → r.values ≡ values
    → length values ≡ suc n
    → remove_last rs ≡ none
    → remove_last (r ∷ rs) ≡ some (shortened r (take n values) ∷ rs)
unfolding remove_last
remove_here r [] rs n e h q = absurd (omega arith)
remove_here r (v ∷ values) rs n e h q =
    let same : length values ≡ n = omega arith in
    rw (q, e, remove_last) (ap (λ k. some (shortened r (take k (v ∷ values)) ∷ rs)) same)

remove_later :
    (r : QueryResult) (rs rest : List QueryResult)
    → remove_last rs ≡ some rest
    → remove_last (r ∷ rs) ≡ some (r ∷ rest)
unfolding remove_last
remove_later r rs rest q = rw (q, remove_last) refl

nothing_here :
    (r : QueryResult) (rs : List QueryResult)
    → r.values ≡ []
    → remove_last rs ≡ none
    → remove_last (r ∷ rs) ≡ none
unfolding remove_last
nothing_here r rs e q = rw (q, e, remove_last) refl

kept-cut :
    (n : ℕ) (r : QueryResult) → n < length r.values → kept n r ≡ shortened r (take n r.values)
unfolding kept
kept-cut n r h = let cut : ltb n (length r.values) ≡ true = ground arith in rw cut refl

kept-whole : (n : ℕ) (r : QueryResult) → length r.values ≤ n → kept n r ≡ r
unfolding kept
kept-whole n r h = let whole : ltb n (length r.values) ≡ false = ground arith in rw whole refl

keep-at : (rs : List QueryResult) {m n : ℕ} → m ≡ n → keep m rs ≡ keep n rs
keep-at rs e = ap (λ k. keep k rs) e

empty_of_length : {A : Type 0} (xs : List A) → length xs ≡ 0 → xs ≡ []
empty_of_length [] h = refl
empty_of_length (x ∷ xs) h = absurd (omega arith)

values-kept_none : (r : QueryResult) → (kept 0 r).values ≡ []
unfolding kept
values-kept_none r = elim (ℕ-cases (length r.values)) [
  | inl e ↦ ap (λ q. q.values) (kept-whole 0 r (omega arith)) ∙ empty_of_length r.values e
  | inr (m, e) ↦ ap (λ q. q.values) (kept-cut 0 r (omega arith))
]

remove_last-nil : remove_last [] ≡ none
unfolding remove_last
remove_last-nil = refl

-- Where nothing is kept, nothing can be removed.
pub remove-none : (rs : List QueryResult) → remove_last (keep 0 rs) ≡ none
unfolding keep
remove-none [] = remove_last-nil
remove-none (r ∷ rs) =
    nothing_here (kept 0 r) (keep (0 - length r.values) rs) (values-kept_none r)
      (ap remove_last (keep-at rs {m = 0 - length r.values} {n = 0} (omega arith)) ∙ remove-none rs)

compare_with : (n l : ℕ) → (suc n < l) ⊎ ((suc n ≡ l) ⊎ (l ≤ n))
compare_with n l = ground arith

-- The values that the rest of the results keeps: none.
none_behind :
    (n : ℕ) (r : QueryResult) (rs : List QueryResult)
    → suc n ≤ length r.values
    → remove_last (keep (suc n - length r.values) rs) ≡ none
none_behind n r rs h =
    ap remove_last (keep-at rs {m = suc n - length r.values} {n = 0} (omega arith)) ∙ remove-none rs

-- What is behind stays empty.
same_behind :
    (n : ℕ) (r : QueryResult) (rs : List QueryResult)
    → suc n ≤ length r.values
    → keep (suc n - length r.values) rs ≡ keep (n - length r.values) rs
same_behind n r rs h =
    keep-at rs {m = suc n - length r.values} {n = n - length r.values} (omega arith)

keep_less :
    (n : ℕ) (r x : QueryResult) (rs : List QueryResult)
    → suc n ≤ length r.values
    → kept (suc n) r ≡ x
    → length x.values ≡ suc n
    → shortened x (take n x.values) ≡ kept n r
    → remove_last (keep (suc n) (r ∷ rs)) ≡ some (keep n (r ∷ rs))
unfolding keep
keep_less n r x rs h e l q =
    ap (λ y. remove_last (y ∷ keep (suc n - length r.values) rs)) e
    ∙ remove_here x x.values (keep (suc n - length r.values) rs) n refl l (none_behind n r rs h)
    ∙ ap (λ y. some (y ∷ keep (suc n - length r.values) rs)) q
    ∙ ap (λ y. some (kept n r ∷ y)) (same_behind n r rs h)

-- A removal keeps one value less.
pub remove-keep :
    (n : ℕ) (rs : List QueryResult)
    → suc n ≤ value_count rs
    → remove_last (keep (suc n) rs) ≡ some (keep n rs)
unfolding keep value_count
remove-keep n [] h = absurd (omega arith)
remove-keep n (r ∷ rs) h = elim (compare_with n (length r.values)) [
  | inl short ↦
      keep_less n r (shortened r (take (suc n) r.values)) rs (omega arith)
        (kept-cut (suc n) r short) (omega (arith, length-take (suc n) r.values))
        (ap (shortened r) (take-take n (suc n) r.values (omega arith))
          ∙ sym (kept-cut n r (omega arith)))
  | inr (inl last) ↦
      keep_less n r r rs (omega arith) (kept-whole (suc n) r (omega arith)) (sym last)
        (sym (kept-cut n r (omega arith)))
  | inr (inr whole) ↦
      let fewer : suc n - length r.values ≡ suc (n - length r.values) = omega arith in
      ap (λ x. remove_last (x ∷ keep (suc n - length r.values) rs))
        (kept-whole (suc n) r (omega arith))
      ∙ remove_later r (keep (suc n - length r.values) rs) (keep (n - length r.values) rs)
          (ap remove_last (keep-at rs fewer) ∙ remove-keep (n - length r.values) rs (omega arith))
      ∙ ap (λ x. some (x ∷ keep (n - length r.values) rs)) (sym (kept-whole n r whole))
]
