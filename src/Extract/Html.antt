-- ===== src/Extract/Html.antt =====
-- `extractHTML` of internal/fetch/extract.go: the values that CSS selectors find.
pub mod Words
pub mod Picked
pub mod Plain
pub mod Answers
use tls_fetch_mcp.Common.{
  Bool, List, Option, [], false, if◌then◌else◌, leb, length, ltb, none, not, some, take, true, ℕ,
  ◌&&◌, ◌++◌, ◌+◌, ◌||◌, ◌∷◌,
}
use tls_fetch_mcp.Text.{Bytes, ascii, eq_bytes, one_of}
use tls_fetch_mcp.Text.Case.{Unicode, to_lower, equal_fold}
use tls_fetch_mcp.Text.Fields.{fields, join_spaced}
use tls_fetch_mcp.Errors.{
  Result, ok, err, ◌>>=◌, ◌>>◌, fail_if, wrap, or_fail, unsupported_mode, parse_html_failed,
  render_failed, attribute_not_allowed, resolve_urls_not_allowed, attribute_required,
  attribute_too_long, not_url_attribute, no_absolute_url, bad_mode, invalid_css, bad_attribute_url,
  extract_failed, panic,
}
use tls_fetch_mcp.Policy.{Url}
use tls_fetch_mcp.Fetcher.{StoredResponse}
use tls_fetch_mcp.Extract.Types.{
  Query, ExtractedValue, QueryResult, NodeType, text_node, Attribute, Node, node, Nodes, no_nodes,
  next_node, Parsers,
}
use tls_fetch_mcp.Extract.Queries.{max_extract_name_bytes}

-- `htmlURLAttributes`.
abbrev pub html_url_attributes : List Bytes
html_url_attributes =
    ascii "action"
    ∷ ascii "cite"
    ∷ ascii "data"
    ∷ ascii "formaction"
    ∷ ascii "href"
    ∷ ascii "poster"
    ∷ ascii "src"
    ∷ []

-- The part of a node's own, with white space made single spaces; nothing if nothing is left.
unfoldable pub own_part : NodeType → Bytes → List Bytes
unfolding fields join_spaced
own_part text_node content = elim (join_spaced (fields content)) [ [] ↦ [] | c ∷ s ↦ (c ∷ s) ∷ [] ]
own_part other content = []

-- `visit` of `normalizedNodeText`: the parts of a node and of what is below it.
unfoldable mutual
  pub parts : Node → List Bytes
  parts (node type content attributes children) = own_part type content ++ parts_all children

  pub parts_all : Nodes → List Bytes
  parts_all no_nodes = []
  parts_all (next_node child children) = parts child ++ parts_all children

-- `normalizedNodeText`.
unfoldable pub normalized_node_text : Node → Bytes
unfolding parts
normalized_node_text n = join_spaced (parts n)

-- The value of the first attribute with the name.
unfoldable pub find_attribute : Unicode → Bytes → List Attribute → Option Bytes
unfolding equal_fold
find_attribute u name [] = none
find_attribute u name (attribute ∷ attributes) =
    if equal_fold u attribute.key name then some attribute.val else find_attribute u name attributes

abbrev pub attributes_of : Node → List Attribute
attributes_of (node type content attributes children) = attributes

abbrev pub children_of : Node → Nodes
children_of (node type content attributes children) = children

-- The modes.
unfoldable pub is_text : Bytes → Bool
unfolding eq_bytes
is_text mode = eq_bytes mode (ascii "text")

unfoldable pub is_inner : Bytes → Bool
unfolding eq_bytes
is_inner mode = eq_bytes mode (ascii "inner_html")

unfoldable pub is_outer : Bytes → Bool
unfolding eq_bytes
is_outer mode = eq_bytes mode (ascii "outer_html")

unfoldable pub is_attribute : Bytes → Bool
unfolding eq_bytes
is_attribute mode = eq_bytes mode (ascii "attribute")

-- `baseURL == nil || !baseURL.IsAbs()`.
abbrev pub not_absolute : Option Url → Bool
not_absolute none = true
not_absolute (some base) = eq_bytes base.scheme []

abbrev pub encoding_of : Bytes → Bytes
encoding_of mode = if is_inner mode || is_outer mode then ascii "html" else ascii "text"

abbrev pub html_value : Bytes → Bytes → ExtractedValue
html_value mode value = record { value = value; encoding = encoding_of mode; path = [] }

abbrev pub or_text_mode : Bytes → Bytes
or_text_mode [] = ascii "text"
or_text_mode (c ∷ mode) = c ∷ mode

abbrev pub html_result : Query → Bytes → ℕ → ℕ → ℕ × List ExtractedValue → QueryResult
html_result query mode matched max_results (count, values) = record {
  name = query.name;
  selector = query.selector;
  mode = mode;
  values = values;
  matched_count = matched;
  returned_count = length values;
  limited = ltb max_results count;
}

module _ {Value : Type 0} (w : Parsers Value) where
  -- The children rendered one behind the other.
  unfoldable pub render_all : Nodes → Result Bytes
  render_all no_nodes = ok []
  render_all (next_node child children) = do
    output ← or_fail (w.render child) render_failed
    rest ← render_all children
    ok (output ++ rest)

  -- `htmlNodeValue`; `none` is a value that does not exist.
  unfoldable pub html_node_value : Bytes → Bytes → Node → Result (Option Bytes)
  unfolding normalized_node_text find_attribute render_all
  html_node_value mode attribute n =
      if is_text mode
      then ok (some (normalized_node_text n))
      else if is_inner mode
      then render_all (children_of n) >>= (λ output. ok (some output))
      else if is_outer mode
      then or_fail (w.render n) render_failed >>= (λ output. ok (some output))
      else if is_attribute mode
      then ok (find_attribute w.unicode attribute (attributes_of n))
      else err (unsupported_mode mode)

  -- The checks of a query's mode and its options.
  unfoldable pub check_mode : ℕ → Option Url → Bytes → Query → Result (Unit {0})
  unfolding to_lower
  check_mode i base mode query =
      if is_text mode || is_inner mode || is_outer mode
      then (do
        fail_if (not (eq_bytes query.attribute [])) (attribute_not_allowed i)
        fail_if query.resolve_urls (resolve_urls_not_allowed i))
      else if is_attribute mode
      then (do
        fail_if (eq_bytes query.attribute []) (attribute_required i)
        fail_if (ltb max_extract_name_bytes (length query.attribute)) (attribute_too_long i)
        fail_if
            (query.resolve_urls
              && not (one_of (to_lower w.unicode query.attribute) html_url_attributes))
            (not_url_attribute i)
        fail_if (query.resolve_urls && not_absolute base) (no_absolute_url i))
      else err (bad_mode i)

  -- The value, resolved against the base if that is asked for. Behind the checks there is a base.
  unfoldable pub resolved : ℕ → Option Url → Bool → Bytes → Result Bytes
  resolved i base false value = ok value
  resolved i none true value = err panic
  resolved i (some base) true value = do
    reference ← or_fail (w.parse_url value) (bad_attribute_url i)
    ok (w.resolve_reference base reference)

  -- The loop over the selected nodes, from the number of extractable values and the values so far.
  unfoldable pub collect :
      ℕ
      → Option Url
      → ℕ
      → Bytes
      → Query
      → ℕ
      → List ExtractedValue
      → List Node
      → Result (ℕ × List ExtractedValue)
  collect i base max_results mode query count values [] = ok (count, values)
  collect i base max_results mode query count values (n ∷ nodes) = do
    found ← wrap (extract_failed i) (html_node_value mode query.attribute n)
    elim found [
      | none ↦ collect i base max_results mode query count values nodes
      | some value ↦ elim (is_attribute mode && leb max_results (length values)) [
        | true ↦ collect i base max_results mode query (count + 1) values nodes
        | false ↦ do
          final ← resolved i base query.resolve_urls value
          collect i base max_results mode query (if is_attribute mode then count + 1 else count)
              (values ++ (html_value mode final ∷ [])) nodes
      ]
    ]

  -- A round of the loop over the queries.
  unfoldable pub html_query : Node → Option Url → ℕ → ℕ → Query → Result QueryResult
  unfolding check_mode collect
  html_query document base max_results i query = do
    let mode = or_text_mode query.mode
    check_mode i base mode query
    match_all ← or_fail (w.compile_css query.selector) (invalid_css i)
    let nodes = match_all document
    found ←
        (if is_attribute mode
          then collect i base max_results mode query 0 [] nodes
          else collect i base max_results mode query (length nodes) [] (take max_results nodes))
    ok (html_result query mode (length nodes) max_results found)

  unfoldable pub html_queries : Node → Option Url → ℕ → ℕ → List Query → Result (List QueryResult)
  unfolding html_query
  html_queries document base max_results i [] = ok []
  html_queries document base max_results i (query ∷ queries) = do
    result ← html_query document base max_results i query
    rest ← html_queries document base max_results (i + 1) queries
    ok (result ∷ rest)

  -- `extractHTML`.
  unfoldable pub extract_html : StoredResponse → List Query → ℕ → Result (List QueryResult)
  unfolding html_queries
  extract_html record_ queries max_results = do
    document ← or_fail (w.parse_html record_.body) parse_html_failed
    let base = if eq_bytes record_.final_url [] then none else w.parse_url record_.final_url
    html_queries document base max_results 0 queries
