-- ===== src/Response/Search/Occurrences.antt =====
-- The search loop against a plain description: walk through the text byte by byte, note each position
-- at which the needle occurs, and go on behind it.
use tls_fetch_mcp.Common.{
  Bool, Bool-cases, List, Option-cases, [], ap, arith, drop, drop-at, drop-drop, false, inl, inr,
  length, length-drop, ltb, none, refl, some, suc, take, true, zero, ℕ, ◌+◌, ◌-◌, ◌<◌, ◌==◌, ◌∙◌,
  ◌∷◌, ◌≡◌, ◌≤◌,
}
use mathlib.Core.Path.{ap₂}
use tls_fetch_mcp.Text.{Bytes, has_prefix}
use tls_fetch_mcp.Text.Find.{
  index, index→OccursAt, index-le-length, OccursAt-bound, length-le_of_has_prefix,
}
use tls_fetch_mcp.Response.Search.Scan.{scan}

module _ (needle : Bytes) where
  -- The positions of the occurrences that do not overlap, from the left. The first argument counts the
  -- bytes of the current occurrence still to pass, the second is the position of the text.
  unfoldable pub occurrences : ℕ → ℕ → Bytes → List ℕ
  occurrences skip at [] = []
  occurrences (suc skip) at (a ∷ s) = occurrences skip (at + 1) s
  occurrences zero at (a ∷ s) = elim (has_prefix (a ∷ s) needle) [
    | true ↦ at ∷ occurrences (length needle - 1) (at + 1) s
    | false ↦ occurrences 0 (at + 1) s
  ]

  at_eq : (s : Bytes) (k : ℕ) {m n : ℕ} → m ≡ n → occurrences k m s ≡ occurrences k n s
  at_eq s k e = ap (λ i. occurrences k i s) e

  -- Bytes to pass are bytes to drop.
  occurrences-skip : (k at : ℕ) (s : Bytes) → occurrences k at s ≡ occurrences 0 (at + k) (drop k s)
  unfolding occurrences
  occurrences-skip zero at s = at_eq s 0 {m = at} {n = at + 0} (omega arith)
  occurrences-skip (suc k) at [] = refl
  occurrences-skip (suc k) at (a ∷ s) =
      occurrences-skip k (at + 1) s
      ∙ at_eq (drop k s) 0 {m = at + 1 + k} {n = at + suc k} (omega arith)

  here_step :
      (at a : ℕ) (s : Bytes)
      → has_prefix (a ∷ s) needle ≡ true
      → occurrences 0 at (a ∷ s) ≡ at ∷ occurrences (length needle - 1) (at + 1) s
  unfolding occurrences
  here_step at a s h = rw (h, occurrences)

  there_step :
      (at a : ℕ) (s : Bytes)
      → has_prefix (a ∷ s) needle ≡ false
      → occurrences 0 at (a ∷ s) ≡ occurrences 0 (at + 1) s
  unfolding occurrences
  there_step at a s h = rw (h, occurrences)

  module _ (nonempty : 0 < length needle) where
    -- Without an occurrence there are none.
    occurrences-none : (at : ℕ) (s : Bytes) → index s needle ≡ none → occurrences 0 at s ≡ []
    unfolding occurrences index
    occurrences-none at [] h = refl
    occurrences-none at (a ∷ s) h = ground (arith, occurrences-none (at + 1) s)

    short_of : (s : Bytes) → has_prefix s needle ≡ true → 0 < length s
    short_of s h = omega (arith, length-le_of_has_prefix s needle h)

    -- Equal places of equal texts.
    move : {m n : ℕ} {s t : Bytes} → m ≡ n → s ≡ t → occurrences 0 m s ≡ occurrences 0 n t
    move {n} {s} e q = at_eq s 0 e ∙ ap (λ x. occurrences 0 n x) q

    behind :
        (at : ℕ) (a : ℕ) (s : Bytes)
        → occurrences (length needle - 1) (at + 1) s
          ≡ occurrences 0 (at + 0 + length needle) (drop (0 + length needle) (a ∷ s))
    behind at a s =
        occurrences-skip (length needle - 1) (at + 1) s
        ∙ move {m = at + 1 + (length needle - 1)} {n = at + 0 + length needle} (omega arith)
            (drop-at (a ∷ s) {m = suc (length needle - 1)} {n = 0 + length needle} (omega arith))

    -- Otherwise the first comes first, and the rest follow behind it.
    occurrences-some :
        (at relative : ℕ) (s : Bytes)
        → index s needle ≡ some relative
        → occurrences 0 at s
          ≡ (at + relative)
            ∷ occurrences 0 (at + relative + length needle) (drop (relative + length needle) s)
    unfolding index
    occurrences-some at relative [] h = absurd (ground (arith, short_of []))
    occurrences-some at zero (a ∷ s) h =
        let here : has_prefix (a ∷ s) needle ≡ true = ground arith in
        here_step at a s here ∙ ap₂ ◌∷◌ {x = at} {y = at + 0} (omega arith) (behind at a s)
    occurrences-some at (suc relative) (a ∷ s) h =
        let not_here : has_prefix (a ∷ s) needle ≡ false = ground arith in
        let there : index s needle ≡ some relative = ground arith in
        there_step at a s not_here
        ∙ (occurrences-some (at + 1) relative s there
            ∙ ap₂ ◌∷◌ {x = at + 1 + relative} {y = at + suc relative} (omega arith) (
                move {m = at + 1 + relative + length needle} {n = at + suc relative + length needle}
                  (omega arith)
                  (drop-at (a ∷ s) {m = suc (relative + length needle)}
                    {n = suc relative + length needle} (omega arith))))

module _ (haystack needle : Bytes) (max_matches : ℕ) (nonempty : 0 < length needle) where
  -- All occurrences from a position on.
  abbrev rest_from : ℕ → List ℕ
  rest_from i = occurrences needle 0 i (drop i haystack)

  -- The first of them that there is room for, and whether there are more.
  abbrev pub limited_to : ℕ → List ℕ → List ℕ × Bool
  limited_to room l = (take room l, ltb room (length l))

  no_more : (room : ℕ) {l : List ℕ} → l ≡ [] → limited_to room l ≡ ([], false)
  no_more zero e = rw e refl
  no_more (suc room) e = rw e (ap₂ (λ x y. (x, y)) {x = []} {y = []} refl (ground arith))

  no_room :
      (room x : ℕ) (xs : List ℕ) {l : List ℕ}
      → room ≡ 0
      → l ≡ x ∷ xs
      → limited_to room l ≡ ([], true)
  no_room room x xs z e = rw (z, e) (ap₂ (λ x y. (x, y)) {x = []} {y = []} refl (ground arith))

  one_more :
      (room room' x : ℕ) (xs : List ℕ) {l : List ℕ}
      → room ≡ suc room'
      → l ≡ x ∷ xs
      → limited_to room l ≡ (x ∷ take room' xs, ltb room' (length xs))
  one_more room room' x xs z e =
      rw (z, e)
        (ap₂ (λ x y. (x, y)) {x = x ∷ take room' xs} {y = x ∷ take room' xs} refl (ground arith))

  rest_none : (i : ℕ) → index (drop i haystack) needle ≡ none → rest_from i ≡ []
  rest_none i e = occurrences-none needle nonempty i (drop i haystack) e

  rest_some :
      (i relative : ℕ)
      → index (drop i haystack) needle ≡ some relative
      → rest_from i ≡ (i + relative) ∷ rest_from (i + relative + length needle)
  rest_some i relative e =
      occurrences-some needle nonempty i relative (drop i haystack) e
      ∙ ap (λ t. (i + relative) ∷ occurrences needle 0 (i + relative + length needle) t)
          (drop-drop i (relative + length needle) haystack
            ∙ drop-at haystack {m = i + (relative + length needle)}
                {n = i + relative + length needle} (omega arith))

  found_within :
      (i relative : ℕ)
      → i ≤ length haystack
      → index (drop i haystack) needle ≡ some relative
      → i + relative + length needle ≤ length haystack
  found_within i relative h e = omega (
    arith,
    length-drop i haystack,
    OccursAt-bound (drop i haystack) needle relative
        (index→OccursAt (drop i haystack) needle relative e)
        (index-le-length (drop i haystack) needle relative e),
  )

  scan_rest :
      (fuel count i : ℕ)
      → i ≤ length haystack
      → length haystack < i + fuel
      → count ≤ max_matches
      → scan haystack needle max_matches fuel count i
        ≡ some (limited_to (max_matches - count) (rest_from i))
  unfolding scan
  scan_rest zero count i h enough room = absurd (omega arith)
  scan_rest (suc fuel) count i h enough room =
      elim (Option-cases (index (drop i haystack) needle)) [
        | inl e ↦ rw (no_more (max_matches - count) (rest_none i e)) (ground arith)
        | inr (relative, e) ↦
            let next : ℕ = i + relative + length needle in
            let within : next ≤ length haystack = found_within i relative h e in
            elim (Bool-cases (count == max_matches)) [
              | inl full ↦
                  rw
                    (no_room (max_matches - count) (i + relative) (rest_from next) (ground arith)
                      (rest_some i relative e))
                    (ground arith)
              | inr more ↦
                  rw
                    (one_more (max_matches - count) (max_matches - (count + 1)) (i + relative)
                      (rest_from next) (ground arith) (rest_some i relative e))
                    (ground
                      (arith, scan_rest fuel (count + 1) next within (omega arith) (ground arith)))
            ]
      ]

  -- With a needle that is not empty the loop ends, and finds, from the left, the occurrences that do not
  -- overlap, as many as are asked for; `limited` says that there are more.
  pub scan-occurrences :
      scan haystack needle max_matches (suc (length haystack)) 0 0
      ≡ some (
        take max_matches (occurrences needle 0 0 haystack),
        ltb max_matches (length (occurrences needle 0 0 haystack)),
      )
  scan-occurrences =
      scan_rest (suc (length haystack)) 0 0 (omega arith) (omega arith) (omega arith)
      ∙ ap (λ room. some (limited_to room (rest_from 0))) {x = max_matches - 0} {y = max_matches}
          (omega arith)
