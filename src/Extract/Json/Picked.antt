-- ===== src/Extract/Json/Picked.antt =====
-- extractJSON of internal/fetch/extract.go: what the queries yield.
use tls_fetch_mcp.Common.{
  Each, List, Option-cases, [], arith, false, inl, inr, length, ltb, refl, some, subst, take, true,
  ℕ, ◌+◌, ◌∷◌, ◌≡◌,
}
use tls_fetch_mcp.Text.{Bytes, ascii, eq_bytes, eq_bytes→eq}
use tls_fetch_mcp.Errors.{ok, Result-cases}
use tls_fetch_mcp.Extract.Types.{
  Query, ExtractedValue, QueryResult, Decoded, decoded, end_of_input, malformed, Located, Parsers,
}
use tls_fetch_mcp.Extract.Json.{
  ensure_json_eof, decode_document, encode_all, json_value, json_result, json_query, json_queries,
  extract_json,
}

module _ {Value : Type 0} (w : Parsers Value) where
  -- The value is the encoding of the node, with the text of its path.
  abbrev pub IsEncoding : Located Value → ExtractedValue → Type 0
  IsEncoding n v =
      (w.marshal n.node ≡ some v.value) × (v.path ≡ n.path) × (v.encoding ≡ ascii "json")

  encode_all-Each :
      (i : ℕ) (ns : List (Located Value)) (vs : List ExtractedValue)
      → encode_all w i ns ≡ ok vs
      → Each IsEncoding ns vs
  unfolding encode_all
  encode_all-Each i [] [] h = tt
  encode_all-Each i [] (v ∷ vs) h = cc
  encode_all-Each i (n ∷ ns) vs h = elim (Option-cases (w.marshal n.node)) [
    | inl e ↦ absurd (ground arith)
    | inr (text, e) ↦ elim (Result-cases (encode_all w i ns)) [
      | inr (f, r) ↦ absurd (ground arith)
      | inl (rest, r) ↦
          let shape : json_value text n.path ∷ rest ≡ vs = ground arith in
          subst (Each IsEncoding (n ∷ ns)) shape ((e, refl, refl), encode_all-Each i ns rest r)
    ]
  ]

  -- The result for a query on a document with a limit: the first nodes that the path selects, at most
  -- so many, encoded in their order; the number of all that it selects; and whether there are more.
  abbrev pub Answers : Value → ℕ → Query → QueryResult → Type 0
  Answers document max_results q r =
      (select : Value → List (Located Value)) × (w.parse_jsonpath q.selector ≡ some select)
      × (r.name ≡ q.name)
      × ((q.mode ≡ []) × (q.attribute ≡ []) × (q.resolve_urls ≡ false))
      × (r.matched_count ≡ length (select document))
      × Each IsEncoding (take max_results (select document)) r.values
      × (r.returned_count ≡ length r.values)
      × (r.limited ≡ ltb max_results r.matched_count)

  json_query-Answers :
      (document : Value) (max_results i : ℕ) (q : Query) (r : QueryResult)
      → json_query w document max_results i q ≡ ok r
      → Answers document max_results q r
  unfolding json_query
  json_query-Answers document max_results i q r h =
      elim (Option-cases (w.parse_jsonpath q.selector)) [
        | inl e ↦ absurd (ground arith)
        | inr (select, e) ↦
            elim (Result-cases (encode_all w i (take max_results (select document)))) [
              | inr (f, c) ↦ absurd (ground arith)
              | inl (vs, c) ↦
                  let shape : json_result q (length (select document)) max_results vs ≡ r =
                    ground arith in
                  let plain : eq_bytes q.mode [] ≡ true = ground arith in
                  let bare : eq_bytes q.attribute [] ≡ true = ground arith in
                  let unresolved : q.resolve_urls ≡ false = ground arith in
                  subst (Answers document max_results q) shape (
                    select,
                    e,
                    refl,
                    (eq_bytes→eq q.mode [] plain, eq_bytes→eq q.attribute [] bare, unresolved),
                    refl,
                    encode_all-Each i (take max_results (select document)) vs c,
                    refl,
                    refl,
                  )
            ]
      ]

  json_queries-Each :
      (document : Value) (max_results i : ℕ) (qs : List Query) (rs : List QueryResult)
      → json_queries w document max_results i qs ≡ ok rs
      → Each (Answers document max_results) qs rs
  unfolding json_queries
  json_queries-Each document max_results i [] [] h = tt
  json_queries-Each document max_results i [] (r ∷ rs) h = cc
  json_queries-Each document max_results i (q ∷ qs) rs h =
      elim (Result-cases (json_query w document max_results i q)) [
        | inr (e, a) ↦ absurd (ground arith)
        | inl (r, a) ↦ elim (Result-cases (json_queries w document max_results (i + 1) qs)) [
          | inr (e, b) ↦ absurd (ground arith)
          | inl (rest, b) ↦
              let shape : r ∷ rest ≡ rs = ground arith in
              subst (Each (Answers document max_results) (q ∷ qs)) shape (
                json_query-Answers document max_results i q r a,
                json_queries-Each document max_results (i + 1) qs rest b,
              )
        ]
      ]

  -- The body is one JSON value and nothing behind it.
  abbrev pub IsDocument : Bytes → Value → Type 0
  IsDocument body document =
      (rest : Bytes) × (w.decode body ≡ decoded document rest) × (w.decode rest ≡ end_of_input)

  at_end : (d : Decoded Value) → ensure_json_eof d ≡ ok tt → d ≡ end_of_input
  unfolding ensure_json_eof
  at_end end_of_input h = refl
  at_end (decoded extra rest) h = cc
  at_end malformed h = cc

  decode_document-rest :
      (d : Decoded Value) (document : Value)
      → decode_document w d ≡ ok document
      → (rest : Bytes) × (d ≡ decoded document rest) × (w.decode rest ≡ end_of_input)
  unfolding decode_document
  decode_document-rest end_of_input document h = cc
  decode_document-rest malformed document h = cc
  decode_document-rest (decoded value rest) document h =
      elim (Result-cases (ensure_json_eof (w.decode rest))) [
        | inr (e, a) ↦ absurd (ground arith)
        | inl (_, a) ↦ (rest, ground arith, at_end (w.decode rest) a)
      ]

  -- Where an extraction from JSON succeeds, the body is one JSON value and nothing behind it, and there is
  -- one result for each query, in their order: the query has no HTML options, its selector is a path, and
  -- the result has the first nodes that the path selects, at most as many as allowed, encoded in their
  -- order and with the texts of their paths; it counts them and all that the path selects, and says
  -- whether there are more.
  pub extract_json-Answers :
      (body : Bytes) (qs : List Query) (max_results : ℕ) (rs : List QueryResult)
      → extract_json w body qs max_results ≡ ok rs
      → (document : Value) × IsDocument body document × Each (Answers document max_results) qs rs
  unfolding extract_json
  extract_json-Answers body qs max_results rs h =
      elim (Result-cases (decode_document w (w.decode body))) [
        | inr (e, a) ↦ absurd (ground arith)
        | inl (document, a) ↦
            let answered : json_queries w document max_results 0 qs ≡ ok rs = ground arith in
            (
              document,
              decode_document-rest (w.decode body) document a,
              json_queries-Each document max_results 0 qs rs answered,
            )
      ]
