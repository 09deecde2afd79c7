-- ===== src/Extract/Limits.antt =====
-- ExtractResponse of internal/fetch/extract.go: the limits of its plan and of its results.
use tls_fetch_mcp.Common.{
  All, Bool, Bool-cases, Each, Each-All, List, Option, [], arith, false, inl, inr, length,
  length-Each, length-take, map, pos, refl, some, subst, take, true, ℕ, ℤ, ◌∷◌, ◌≡◌, ◌≤ℤ◌, ◌≤◌, ◌⊎◌,
}
use tls_fetch_mcp.Text.{ascii, eq_bytes, eq_bytes→eq}
use tls_fetch_mcp.Errors.{Result, ok, err, Result-cases}
use tls_fetch_mcp.Fetcher.{StoredResponse}
use tls_fetch_mcp.Extract.Types.{Query, ExtractInput, QueryResult, Node, Parsers}
use tls_fetch_mcp.Extract.Queries.{
  trimmed, validate_queries, result_limit, output_limit, detect_format,
}
use tls_fetch_mcp.Extract.Queries.Accepted.{IsGood, HaveDistinctNames, validate_queries_iff}
use tls_fetch_mcp.Extract.Html.Picked
use tls_fetch_mcp.Extract.Html.Plain
use tls_fetch_mcp.Extract.Html.Answers as Html
use tls_fetch_mcp.Policy.{Url}
use tls_fetch_mcp.Extract.Json.{extract_json}
use tls_fetch_mcp.Extract.Json.Picked as Json
use tls_fetch_mcp.Extract.Fit.{value_count}
use tls_fetch_mcp.Extract.Fit.Shorter.{IsCounted}
use tls_fetch_mcp.Extract.{total_returned, noting_truncation, Plan, extract_plan, extract_results}

result_limit-IsWithin : (value : ℤ) (n : ℕ) → result_limit value ≡ ok n → (1 ≤ n) × (n ≤ 100)
unfolding result_limit
result_limit-IsWithin value n h = ground arith

output_limit-IsWithin :
    (max_read_bytes value n : ℤ)
    → output_limit max_read_bytes value ≡ ok n
    → (pos 1 ≤ℤ n) × (n ≤ℤ max_read_bytes)
unfolding output_limit
output_limit-IsWithin max_read_bytes value n h = ground arith

-- The counts of results that count their values.
pub total_returned-value_count :
    (rs : List QueryResult) → All IsCounted rs → total_returned rs ≡ value_count rs
unfolding total_returned value_count
total_returned-value_count [] h = refl
total_returned-value_count (r ∷ rs) h = omega (arith, h.0, total_returned-value_count rs h.1)

length-take_le : {A : Type 0} (n : ℕ) (xs : List A) → length (take n xs) ≤ n
length-take_le n xs = omega (arith, length-take n xs)

-- A result counts its values, which are at most as many as allowed.
abbrev pub IsBounded : ℕ → QueryResult → Type 0
IsBounded max_results r = IsCounted r × (length r.values ≤ max_results)

module _ {Value : Type 0} (w : Parsers Value) where
  -- The plan keeps the limits, and its queries are those of the input, trimmed.
  pub record IsWithin (max_read_bytes : ℤ) (input : ExtractInput) (plan : Plan) : Type 0 where
    pub queries : plan.queries ≡ map (trimmed w.unicode) input.queries
    pub some_queries : 1 ≤ length input.queries
    pub few_queries : length input.queries ≤ 16
    pub good : All IsGood plan.queries
    pub distinct : HaveDistinctNames plan.queries
    pub max_results : (1 ≤ plan.max_results) × (plan.max_results ≤ 100)
    pub max_bytes : (pos 1 ≤ℤ plan.max_bytes) × (plan.max_bytes ≤ℤ max_read_bytes)

  pub extract_plan-IsWithin :
      (max_read_bytes : ℤ) (input : ExtractInput) (record_ : StoredResponse) (plan : Plan)
      → extract_plan w max_read_bytes input record_ ≡ ok plan
      → IsWithin max_read_bytes input plan
  unfolding extract_plan
  extract_plan-IsWithin max_read_bytes input record_ plan h =
      elim (Result-cases (validate_queries w.unicode input.queries)) [
        | inr (e, a) ↦ absurd (ground arith)
        | inl (qs, a) ↦ elim (Result-cases (result_limit input.max_results)) [
          | inr (e, b) ↦ absurd (ground arith)
          | inl (n, b) ↦ elim (Result-cases (output_limit max_read_bytes input.max_output_bytes)) [
            | inr (e, c) ↦ absurd (ground arith)
            | inl (k, c) ↦
                elim (Result-cases
                  (detect_format w input.format record_.content_type record_.body)) [
                    | inr (e, d) ↦ absurd (ground arith)
                    | inl (format, d) ↦
                        let shape : record {
                          queries = qs;
                          max_results = n;
                          max_bytes = k;
                          format = format;
                        }
                            ≡ plan =
                          ground arith in
                        let (low, few, e, goods, names) =
                          (validate_queries_iff w.unicode input.queries qs).0 a in
                        subst (IsWithin max_read_bytes input) shape (record {
                          queries = e;
                          some_queries = low;
                          few_queries = few;
                          good = goods;
                          distinct = names;
                          max_results = result_limit-IsWithin input.max_results n b;
                          max_bytes =
                              output_limit-IsWithin max_read_bytes input.max_output_bytes k c;
                        })
                  ]
          ]
        ]
      ]

  html-IsBounded :
      (document : Node) (base : Option Url) (m : ℕ) (q : Query) (r : QueryResult)
      → Html.Answers w document base m q r
      → IsBounded m r
  html-IsBounded document base m q r (match_all, _, _, _, _, count, inl (_, (each, _))) =
      let texts = Picked.attribute_values w.unicode q.attribute (match_all document) in
      (
        count,
        omega (
          arith,
          length-Each (Picked.IsTarget w base q.resolve_urls) (take m texts) r.values each,
          length-take_le m texts,
        ),
      )
  html-IsBounded document base m q r (match_all, _, _, _, _, count, inr (_, (each, _))) = (
    count,
    omega (
      arith,
      length-Each (Plain.Shows w r.mode q.attribute) (take m (match_all document)) r.values each,
      length-take_le m (match_all document),
    ),
  )

  json-IsBounded :
      (document : Value) (m : ℕ) (q : Query) (r : QueryResult)
      → Json.Answers w document m q r
      → IsBounded m r
  json-IsBounded document m q r (select, _, _, _, _, each, count, _) = (
    count,
    omega (
      arith,
      length-Each (Json.IsEncoding w) (take m (select document)) r.values each,
      length-take_le m (select document),
    ),
  )

  -- The results answer the queries of the plan, in the format of the plan.
  abbrev pub Answered : StoredResponse → Plan → List QueryResult → Type 0
  Answered record_ plan results =
      ((plan.format ≡ ascii "html")
        × ((document : Node) × (w.parse_html record_.body ≡ some document)
            × Each (Html.Answers w document (Html.base_of w record_) plan.max_results) plan.queries
                results))
      ⊎ ((plan.format ≡ ascii "json")
          × ((document : Value) × Json.IsDocument w record_.body document
              × Each (Json.Answers w document plan.max_results) plan.queries results))

  noted :
      {A : Type 0} (truncated : Bool) (r : Result A) (a : A)
      → noting_truncation truncated r ≡ ok a
      → r ≡ ok a
  noted false r a h = h
  noted true (ok b) a h = h
  noted true (err e) a h = cc

  pub extract_results-Answered :
      (record_ : StoredResponse) (plan : Plan) (results : List QueryResult)
      → extract_results w record_ plan ≡ ok results
      → Answered record_ plan results
  unfolding extract_results
  extract_results-Answered record_ plan results h =
      elim (Bool-cases (eq_bytes plan.format (ascii "html"))) [
        | inl e ↦ inl (
          eq_bytes→eq plan.format (ascii "html") e,
          Html.extract_html-Answers w record_ plan.queries plan.max_results results (rw e at h),
        )
        | inr e ↦ elim (Bool-cases (eq_bytes plan.format (ascii "json"))) [
          | inl f ↦ inr (
            eq_bytes→eq plan.format (ascii "json") f,
            Json.extract_json-Answers w record_.body plan.queries plan.max_results results (
                noted record_.truncated (extract_json w record_.body plan.queries plan.max_results)
                  results (ground arith)),
          )
          | inr f ↦ absurd (ground arith)
        ]
      ]

  pub Answered-AreBounded :
      (record_ : StoredResponse) (plan : Plan) (results : List QueryResult)
      → Answered record_ plan results
      → All (IsBounded plan.max_results) results
  Answered-AreBounded record_ plan results (inl (_, (document, _, each))) =
      Each-All (Html.Answers w document (Html.base_of w record_) plan.max_results)
        (IsBounded plan.max_results) plan.queries results
        (html-IsBounded document (Html.base_of w record_) plan.max_results) each
  Answered-AreBounded record_ plan results (inr (_, (document, _, each))) =
      Each-All (Json.Answers w document plan.max_results) (IsBounded plan.max_results) plan.queries
        results (json-IsBounded document plan.max_results) each
