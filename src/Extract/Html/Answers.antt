-- ===== src/Extract/Html/Answers.antt =====
-- extractHTML of internal/fetch/extract.go: what the queries yield.
use tls_fetch_mcp.Common.{
  Bool-cases, Each, List, Option, Option-cases, [], ap, arith, false, if◌then◌else◌, inl, inr,
  length, ltb, none, refl, some, subst, sym, take, true, ℕ, ◌+◌, ◌-◌, ◌∷◌, ◌≡◌, ◌≢◌, ◌⊎◌,
}
use tls_fetch_mcp.Text.{Bytes, ascii, eq_bytes, eq_bytes→eq, eq_bytes_iff}
use tls_fetch_mcp.Errors.{Result, ok, Result-cases}
use tls_fetch_mcp.Policy.{Url}
use tls_fetch_mcp.Fetcher.{StoredResponse}
use tls_fetch_mcp.Extract.Types.{Query, ExtractedValue, QueryResult, Node, Parsers}
use tls_fetch_mcp.Extract.Html.{
  is_attribute, or_text_mode, check_mode, collect, html_result, html_query, html_queries,
  extract_html,
}
use tls_fetch_mcp.Extract.Html.Picked.{attribute_values, IsTarget, gather-Adds}
use tls_fetch_mcp.Extract.Html.Plain.{Shows, collect-Adds}

module _ {Value : Type 0} (w : Parsers Value) where
  -- The result in the mode for attributes: the first values that the attribute has at the nodes, at most
  -- as many as allowed, and whether there are more of them.
  abbrev pub ShowsAttributes : Option Url → ℕ → Query → List Node → QueryResult → Type 0
  ShowsAttributes base max_results q nodes r =
      let texts = attribute_values w.unicode q.attribute nodes in
      Each (IsTarget w base q.resolve_urls) (take max_results texts) r.values
      × (r.limited ≡ ltb max_results (length texts))

  -- The result in another mode: what it reads at the first nodes, at most as many as allowed, and
  -- whether there are more nodes.
  abbrev pub ShowsNodes : ℕ → Query → List Node → QueryResult → Type 0
  ShowsNodes max_results q nodes r =
      Each (Shows w r.mode q.attribute) (take max_results nodes) r.values
      × (r.limited ≡ ltb max_results (length nodes))

  -- The result for a query on a document.
  abbrev pub Answers : Node → Option Url → ℕ → Query → QueryResult → Type 0
  Answers document base max_results q r =
      (match_all : Node → List Node) × (w.compile_css q.selector ≡ some match_all)
      × (r.name ≡ q.name)
      × (r.mode ≡ or_text_mode q.mode)
      × (r.matched_count ≡ length (match_all document))
      × (r.returned_count ≡ length r.values)
      × (((r.mode ≡ ascii "attribute") × ShowsAttributes base max_results q (match_all document) r)
          ⊎ ((r.mode ≢ ascii "attribute") × ShowsNodes max_results q (match_all document) r))

  abbrev collected :
      ℕ → Option Url → ℕ → Bytes → Query → List Node → Result (ℕ × List ExtractedValue)
  collected i base max_results mode q nodes =
      if is_attribute mode
      then collect w i base max_results mode q 0 [] nodes
      else collect w i base max_results mode q (length nodes) [] (take max_results nodes)

  -- The steps of a query that succeeds.
  html_query-run :
      (document : Node) (base : Option Url) (max_results i : ℕ) (q : Query) (r : QueryResult)
      → html_query w document base max_results i q ≡ ok r
      → (match_all : Node → List Node) × (found : ℕ × List ExtractedValue) × (w.compile_css
            q.selector
          ≡ some match_all)
        × (check_mode w i base (or_text_mode q.mode) q ≡ ok tt)
        × (collected i base max_results (or_text_mode q.mode) q (match_all document) ≡ ok found)
        × (html_result q (or_text_mode q.mode) (length (match_all document)) max_results found ≡ r)
  unfolding html_query
  html_query-run document base max_results i q r h =
      let mode = or_text_mode q.mode in
      elim (Result-cases (check_mode w i base mode q)) [
        | inr (e, a) ↦ absurd (ground arith)
        | inl (_, a) ↦ elim (Option-cases (w.compile_css q.selector)) [
          | inl b ↦ absurd (ground arith)
          | inr (match_all, b) ↦
              elim (Result-cases (collected i base max_results mode q (match_all document))) [
                | inr (e, c) ↦ absurd (ground arith)
                | inl (found, c) ↦ (match_all, found, b, a, c, ground arith)
              ]
        ]
      ]

  is_attribute→eq : (mode : Bytes) → is_attribute mode ≡ true → mode ≡ ascii "attribute"
  unfolding is_attribute
  is_attribute→eq mode h = eq_bytes→eq mode (ascii "attribute") h

  is_attribute→not : (mode : Bytes) → is_attribute mode ≡ false → mode ≢ ascii "attribute"
  unfolding is_attribute
  is_attribute→not mode h e = ground (arith, eq_bytes_iff mode (ascii "attribute"))

  gathered-Shows :
      (i : ℕ) (base : Option Url) (max_results : ℕ) (mode : Bytes) (q : Query) (nodes : List Node)
      (found : ℕ × List ExtractedValue)
      → mode ≡ ascii "attribute"
      → collect w i base max_results mode q 0 [] nodes ≡ ok found
      → ShowsAttributes base max_results q nodes
          (html_result q mode (length nodes) max_results found)
  gathered-Shows i base max_results mode q nodes (total, all) e h =
      let texts = attribute_values w.unicode q.attribute nodes in
      let (t, (new, a, each)) =
        gather-Adds w i base max_results q 0 [] nodes (total, all)
          (subst (λ m. collect w i base max_results m q 0 [] nodes ≡ ok (total, all)) e h) in
      let whole : max_results - 0 ≡ max_results = omega arith in
      let count : total ≡ length texts = omega (arith, t) in
      (
        subst (λ vs. Each (IsTarget w base q.resolve_urls) (take max_results texts) vs) (sym a)
            (subst (λ k. Each (IsTarget w base q.resolve_urls) (take k texts) new) whole each),
        ap (ltb max_results) count,
      )

  -- A query without an attribute's mode passes the checks only if it resolves no URLs.
  plain_of_check :
      (i : ℕ) (base : Option Url) (mode : Bytes) (q : Query)
      → is_attribute mode ≡ false
      → check_mode w i base mode q ≡ ok tt
      → q.resolve_urls ≡ false
  unfolding check_mode
  plain_of_check i base mode q other h = ground arith

  collected-Shows :
      (i : ℕ) (base : Option Url) (max_results : ℕ) (mode : Bytes) (q : Query) (nodes : List Node)
      (found : ℕ × List ExtractedValue)
      → is_attribute mode ≡ false
      → q.resolve_urls ≡ false
      → collect w i base max_results mode q (length nodes) [] (take max_results nodes) ≡ ok found
      → ShowsNodes max_results q nodes (html_result q mode (length nodes) max_results found)
  collected-Shows i base max_results mode q nodes (total, all) other plain h =
      let (t, (new, a, each)) =
        collect-Adds w i base max_results mode q other plain (length nodes) []
          (take max_results nodes) (total, all) h in
      (
        subst (λ vs. Each (Shows w mode q.attribute) (take max_results nodes) vs) (sym a) each,
        ap (ltb max_results) t,
      )

  html_query-Answers :
      (document : Node) (base : Option Url) (max_results i : ℕ) (q : Query) (r : QueryResult)
      → html_query w document base max_results i q ≡ ok r
      → Answers document base max_results q r
  html_query-Answers document base max_results i q r h =
      let mode = or_text_mode q.mode in
      let (match_all, found, b, a, c, shape) = html_query-run document base max_results i q r h in
      let nodes = match_all document in
      subst (Answers document base max_results q) shape (
        match_all,
        b,
        refl,
        refl,
        refl,
        refl,
        elim (Bool-cases (is_attribute mode)) [
          | inl e ↦ inl (
            is_attribute→eq mode e,
            gathered-Shows i base max_results mode q nodes found (is_attribute→eq mode e)
                (rw e at c),
          )
          | inr e ↦ inr (
            is_attribute→not mode e,
            collected-Shows i base max_results mode q nodes found e
                (plain_of_check i base mode q e a) (rw e at c),
          )
        ],
      )

  html_queries-Each :
      (document : Node) (base : Option Url) (max_results i : ℕ) (qs : List Query)
      (rs : List QueryResult)
      → html_queries w document base max_results i qs ≡ ok rs
      → Each (Answers document base max_results) qs rs
  unfolding html_queries
  html_queries-Each document base max_results i [] [] h = tt
  html_queries-Each document base max_results i [] (r ∷ rs) h = cc
  html_queries-Each document base max_results i (q ∷ qs) rs h =
      elim (Result-cases (html_query w document base max_results i q)) [
        | inr (e, a) ↦ absurd (ground arith)
        | inl (r, a) ↦ elim (Result-cases (html_queries w document base max_results (i + 1) qs)) [
          | inr (e, b) ↦ absurd (ground arith)
          | inl (rest, b) ↦
              let shape : r ∷ rest ≡ rs = ground arith in
              subst (Each (Answers document base max_results) (q ∷ qs)) shape (
                html_query-Answers document base max_results i q r a,
                html_queries-Each document base max_results (i + 1) qs rest b,
              )
        ]
      ]

  -- The URL that relative URLs are resolved against.
  abbrev pub base_of : StoredResponse → Option Url
  base_of record_ = if eq_bytes record_.final_url [] then none else w.parse_url record_.final_url

  -- Where an extraction from HTML succeeds, there is one result for each query, in their order. Its
  -- selector is valid, and it counts all nodes that the selector finds. In the mode for attributes it has the
  -- first values that the attribute has at those nodes, at most as many as allowed, each resolved
  -- against the stored URL if that is asked for; nodes without the attribute do not take the place of others.
  -- In another mode it has what the mode reads at the first nodes, at most as many as allowed. It says
  -- that it is limited exactly where there was more to show.
  pub extract_html-Answers :
      (record_ : StoredResponse) (qs : List Query) (max_results : ℕ) (rs : List QueryResult)
      → extract_html w record_ qs max_results ≡ ok rs
      → (document : Node) × (w.parse_html record_.body ≡ some document)
        × Each (Answers document (base_of record_) max_results) qs rs
  unfolding extract_html
  extract_html-Answers record_ qs max_results rs h =
      elim (Option-cases (w.parse_html record_.body)) [
        | inl e ↦ absurd (ground arith)
        | inr (document, e) ↦
            let run : html_queries w document (base_of record_) max_results 0 qs ≡ ok rs =
              ground arith in
            (document, e, html_queries-Each document (base_of record_) max_results 0 qs rs run)
      ]
