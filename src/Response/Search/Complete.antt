-- ===== src/Response/Search/Complete.antt =====
-- SearchResponse of internal/fetch/response_store.go as a whole.
use tls_fetch_mcp.Common.{
  All, All-take, Bool-cases, List, [], arith, false, inl, inr, length, ltb, map, min, refl, slice,
  some, suc, take, true, zero, ℕ, ◌+◌, ◌-◌, ◌<◌, ◌∷◌, ◌≡◌, ◌≤◌,
}
use mathlib.Core.Path.{ap₂}
use tls_fetch_mcp.Text.{Bytes, eq_bytes, has_prefix}
use tls_fetch_mcp.Text.Find.{length-le_of_has_prefix}
use tls_fetch_mcp.Text.Utf8.{valid}
use tls_fetch_mcp.Errors.{ok}
use tls_fetch_mcp.Response.Search.{
  SearchInput, SearchMatch, SearchOutput, match_at, matches_at, search_limits, folded,
  search_output, search_record,
}
use tls_fetch_mcp.Response.Search.Scan.{length-ascii_lower_copy}
use tls_fetch_mcp.Response.Search.Occurrences.{occurrences, scan-occurrences}
use tls_fetch_mcp.Response.Search.Window.Widens.{valid_utf8_window-valid}

-- The match ends within the text.
abbrev Ends : Bytes → ℕ → ℕ → Type 0
Ends needle top offset = offset + length needle ≤ top

occurrences-Ends :
    (needle : Bytes) (top skip at : ℕ) (s : Bytes)
    → at + length s ≡ top
    → All (Ends needle top) (occurrences needle skip at s)
unfolding occurrences
occurrences-Ends needle top skip at [] e = tt
occurrences-Ends needle top (suc skip) at (a ∷ s) e =
    occurrences-Ends needle top skip (at + 1) s (omega arith)
occurrences-Ends needle top zero at (a ∷ s) e = elim (Bool-cases (has_prefix (a ∷ s) needle)) [
  | inl here ↦
      rw (here, occurrences)
        (
          omega (arith, length-le_of_has_prefix (a ∷ s) needle here),
          occurrences-Ends needle top (length needle - 1) (at + 1) s (omega arith),
        )
  | inr there ↦ rw (there, occurrences) (occurrences-Ends needle top 0 (at + 1) s (omega arith))
]

-- The context of a match is a valid part of the body that holds the match.
abbrev pub HasContext : Bytes → ℕ → SearchMatch → Type 0
HasContext body query_bytes m =
    (s : ℕ) × (e : ℕ) × (m.context ≡ slice s e body)
    × (s ≤ m.offset)
    × (m.offset + query_bytes ≤ e)
    × (e ≤ length body)
    × (valid m.context ≡ true)

module _ (body : Bytes) (text : valid body ≡ true) (query_bytes context_bytes : ℕ)
    (nonempty : 0 < query_bytes) where
  match_at_lem :
      (offset : ℕ)
      → offset + query_bytes ≤ length body
      → (m : SearchMatch) × (match_at body query_bytes context_bytes offset ≡ ok m)
        × (m.offset ≡ offset)
        × HasContext body query_bytes m
  unfolding match_at
  match_at_lem offset h =
      let (s, e, q, a, b, c, good) =
        valid_utf8_window-valid body (offset - context_bytes)
          (min (offset + query_bytes + context_bytes) (length body)) text (omega arith)
          (omega arith) in
      (
        record { offset = offset; context = slice s e body },
        rw (q, match_at),
        refl,
        (s, e, refl, omega arith, omega arith, c, good),
      )

  matches_at_lem :
      (offsets : List ℕ)
      → All (λ o. o + query_bytes ≤ length body) offsets
      → (ms : List SearchMatch) × (matches_at body query_bytes context_bytes offsets ≡ ok ms)
        × (map (λ m. m.offset) ms ≡ offsets)
        × All (HasContext body query_bytes) ms
  unfolding matches_at
  matches_at_lem [] h = ([], refl, refl, tt)
  matches_at_lem (o ∷ offsets) h =
      let (m, e, at, good) = match_at_lem o h.0 in
      let (ms, es, ats, goods) = matches_at_lem offsets h.1 in
      (m ∷ ms, rw (e, matches_at) (rw es), ap₂ ◌∷◌ at ats, (good, goods))

named-positive : (s : Bytes) → eq_bytes s [] ≡ false → 0 < length s
unfolding eq_bytes
named-positive [] h = cc
named-positive (a ∷ s) h = omega arith

-- What accepted limits mean.
search_limits-ok :
    (input : SearchInput) (body : Bytes) {max_matches context_bytes : ℕ}
    → search_limits input body ≡ ok (max_matches, context_bytes)
    → (valid body ≡ true) × (0 < length input.query) × ((0 < max_matches) × (max_matches ≤ 50))
unfolding search_limits
search_limits-ok input body h =
    (ground arith, named-positive input.query (ground arith), ground arith)

length-folded : (input : SearchInput) (s : Bytes) → length (folded input s) ≡ length s
length-folded input s = elim (Bool-cases input.case_sensitive) [
  | inl exact ↦ rw exact
  | inr any ↦ rw any (length-ascii_lower_copy s)
]

Ends-transport :
    {n m top end : ℕ} (l : List ℕ)
    → n ≡ m
    → top ≡ end
    → All (λ o. o + n ≤ top) l
    → All (λ o. o + m ≤ end) l
Ends-transport [] e q h = tt
Ends-transport (o ∷ l) e q h = (omega (arith, h.0), Ends-transport l e q h.1)

-- All the matches: the occurrences, without overlap, in the text that the search runs over.
abbrev pub all_matches : SearchInput → Bytes → List ℕ
all_matches input body = occurrences (folded input input.query) 0 0 (folded input body)

-- What a search yields when at most so many matches are asked for.
pub record Found (input : SearchInput) (body : Bytes) (max_matches : ℕ) (out : SearchOutput)
    : Type 0 where
  pub offsets : map (λ m. m.offset) out.matches ≡ take max_matches (all_matches input body)
  pub limited : out.limited ≡ ltb max_matches (length (all_matches input body))
  pub count : out.match_count ≡ length out.matches
  pub contexts : All (HasContext body (length input.query)) out.matches

-- Once its limits are accepted, a search ends without a panic. The offsets are those of the first
-- matches, as many as are asked for and without overlap, of the query in the body, both lowered when
-- case does not count; `limited` says that there are more; and the context of each match is valid
-- UTF-8, a part of the body that holds the match.
pub search_record-Found :
    (input : SearchInput) (body : Bytes) (max_matches context_bytes : ℕ)
    → search_limits input body ≡ ok (max_matches, context_bytes)
    → (out : SearchOutput) × (search_record input body ≡ some (ok out))
      × Found input body max_matches out
unfolding search_record
search_record-Found input body max_matches context_bytes h =
    let (text, nonempty, _) = search_limits-ok input body h in
    let haystack = folded input body in
    let needle = folded input input.query in
    let n : length needle ≡ length input.query = length-folded input input.query in
    let found = scan-occurrences haystack needle max_matches (omega arith) in
    let ends : All (Ends needle (length haystack)) (all_matches input body) =
      occurrences-Ends needle (length haystack) 0 0 haystack (omega arith) in
    let within =
      All-take (Ends needle (length haystack)) max_matches (all_matches input body) ends in
    let (ms, e, at, good) =
      matches_at_lem body text (length input.query) context_bytes nonempty
        (take max_matches (all_matches input body))
        (Ends-transport (take max_matches (all_matches input body)) n (length-folded input body)
          within) in
    let limited = ltb max_matches (length (all_matches input body)) in
    (
      search_output input body (ms, limited),
      rw (h, search_record) (rw found (rw e refl)),
      record { offsets = at; limited = refl; count = refl; contexts = good },
    )
