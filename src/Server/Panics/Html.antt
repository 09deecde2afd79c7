-- ===== src/Server/Panics/Html.antt =====
-- extractHTML of internal/fetch/extract.go.
use tls_fetch_mcp.Common.{
  Bool, List, Option, [], arith, false, if◌then◌else◌, inl, inr, leb, length, none, refl, some,
  take, true, ℕ, ◌&&◌, ◌++◌, ◌+◌, ◌∷◌, ◌≡◌, ◌⊎◌,
}
use tls_fetch_mcp.Text.{Bytes}
use tls_fetch_mcp.Errors.{
  Result, ok, Result-cases, Calm, Calm-bind, Calm-check, Calm-wrap, Calm-or_fail, Calm-err,
  extract_failed, wrap, or_fail, invalid_css, ◌>>=◌,
}
use tls_fetch_mcp.Fetcher.{StoredResponse}
use tls_fetch_mcp.Policy.{Url}
use tls_fetch_mcp.Extract.Types.{Query, ExtractedValue, Parsers, Node, Nodes, no_nodes, next_node}
use tls_fetch_mcp.Extract.Html.{
  is_attribute, render_all, or_text_mode, html_value, html_node_value, check_mode, resolved,
  collect, html_query, html_queries, extract_html,
}

Calm-split :
    {A : Type 0} (b : Bool) (r s : Result A)
    → Calm r
    → Calm s
    → Calm (elim b as (λ b. Result A) [ true ↦ r | false ↦ s ])
Calm-split true r s h k = h
Calm-split false r s h k = k

module _ {Value : Type 0} (w : Parsers Value) where
  render_all-Calm : (ns : Nodes) → Calm (render_all w ns)
  unfolding render_all
  render_all-Calm no_nodes = tt
  render_all-Calm (next_node n ns) =
      search (Calm-bind, Calm-or_fail, render_all-Calm ns, arith) depth 8

  -- A value that is to be resolved has a base.
  abbrev HasBase : Option Url → Bool → Type 0
  HasBase base resolves = (resolves ≡ false) ⊎ ((url : Url) × (base ≡ some url))

  resolved-Calm :
      (i : ℕ) (base : Option Url) (resolves : Bool) (value : Bytes)
      → HasBase base resolves
      → Calm (resolved w i base resolves value)
  unfolding resolved
  resolved-Calm i base false value h = tt
  resolved-Calm i none true value h = absurd (ground arith)
  resolved-Calm i (some base) true value h = search (Calm-bind, Calm-or_fail, arith) depth 6

  check_mode-Calm :
      (i : ℕ) (base : Option Url) (mode : Bytes) (q : Query) → Calm (check_mode w i base mode q)
  unfolding check_mode
  check_mode-Calm i base mode q = ground arith

  check_mode-HasBase :
      (i : ℕ) (base : Option Url) (mode : Bytes) (q : Query)
      → check_mode w i base mode q ≡ ok tt
      → HasBase base q.resolve_urls
  unfolding check_mode
  check_mode-HasBase i none mode q h = inl (ground arith)
  check_mode-HasBase i (some url) mode q h = inr (url, refl)

  html_node_value-Calm :
      (mode attribute : Bytes) (n : Node) (i : ℕ)
      → Calm (wrap (extract_failed i) (html_node_value w mode attribute n))
  html_node_value-Calm mode attribute n i =
      Calm-wrap (extract_failed i) (html_node_value w mode attribute n) (λ e. refl)

  module _ (i : ℕ) (base : Option Url) (m : ℕ) (mode : Bytes) (q : Query)
      (h : HasBase base q.resolve_urls) where
    collect-Calm :
        (count : ℕ) (values : List ExtractedValue) (ns : List Node)
        → Calm (collect w i base m mode q count values ns)
    unfolding collect
    collect-Calm count values [] = tt
    collect-Calm count values (n ∷ ns) =
        let seen = wrap (extract_failed i) (html_node_value w mode q.attribute n) in
        elim (Result-cases seen) [
          | inr (e, v) ↦
              rw (v, collect) (Calm-err seen e (html_node_value-Calm mode q.attribute n i) v)
          | inl (none, v) ↦ rw (v, collect) (collect-Calm count values ns)
          | inl (some value, v) ↦
              let next : Bytes → Result (ℕ × List ExtractedValue) = λ final.
                collect w i base m mode q (if is_attribute mode then count + 1 else count)
                  (values ++ (html_value mode final ∷ [])) ns in
              let one : Calm (resolved w i base q.resolve_urls value >>= next) =
                Calm-bind (resolved w i base q.resolve_urls value) next
                  (resolved-Calm i base q.resolve_urls value h)
                  (λ final.
                    collect-Calm (if is_attribute mode then count + 1 else count)
                      (values ++ (html_value mode final ∷ [])) ns) in
              rw (v, collect)
                (Calm-split (is_attribute mode && leb m (length values))
                  (collect w i base m mode q (count + 1) values ns)
                  (resolved w i base q.resolve_urls value >>= next)
                  (collect-Calm (count + 1) values ns) one)
        ]

  html_query-Calm :
      (d : Node) (base : Option Url) (m i : ℕ) (q : Query) → Calm (html_query w d base m i q)
  unfolding html_query
  html_query-Calm d base m i q =
      let mode = or_text_mode q.mode in
      Calm-check (check_mode w i base mode q) _ (check_mode-Calm i base mode q) (λ passed.
        let h = check_mode-HasBase i base mode q passed in
        Calm-bind (or_fail (w.compile_css q.selector) (invalid_css i)) _
          (Calm-or_fail (w.compile_css q.selector) (invalid_css i) refl)
          (λ match_all.
            let nodes = match_all d in
            Calm-bind
              (if is_attribute mode
                then collect w i base m mode q 0 [] nodes
                else collect w i base m mode q (length nodes) [] (take m nodes))
              _
              (ground (
                arith,
                collect-Calm i base m mode q h 0 [] nodes,
                collect-Calm i base m mode q h (length nodes) [] (take m nodes),
              ))
              (λ found. tt)))

  html_queries-Calm :
      (d : Node) (base : Option Url) (m i : ℕ) (qs : List Query)
      → Calm (html_queries w d base m i qs)
  unfolding html_queries
  html_queries-Calm d base m i [] = tt
  html_queries-Calm d base m i (q ∷ qs) =
      search (Calm-bind, html_query-Calm, html_queries-Calm d base m (i + 1) qs, arith) depth 8

  pub extract_html-Calm :
      (r : StoredResponse) (qs : List Query) (m : ℕ) → Calm (extract_html w r qs m)
  unfolding extract_html
  extract_html-Calm r qs m = search (Calm-bind, Calm-or_fail, html_queries-Calm, arith) depth 8
