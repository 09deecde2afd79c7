-- ===== src/Extract/Tests.antt =====
-- Runs of internal/fetch/extract.go, and its theorems at concrete inputs.
use tls_fetch_mcp.Common.{
  All, Each, List, [], false, if◌then◌else◌, map, pos, refl, true, ℕ, ◌++◌, ◌↔◌, ◌∷◌, ◌≡◌, ◌≤◌,
}
use mathlib.Core.Option.{none, some}
use tls_fetch_mcp.Text.{Bytes, ascii, eq_bytes, has_prefix}
use tls_fetch_mcp.Text.Case.{ascii_only}
use tls_fetch_mcp.Errors.{ok, err, query_name_duplicated}
use tls_fetch_mcp.Policy.{Url}
use tls_fetch_mcp.Fetcher.{StoredResponse}
use tls_fetch_mcp.Extract.Types.{
  Query, ExtractInput, ExtractedValue, QueryResult, text_node, element_node, document_node, Node,
  node, no_nodes, next_node, decoded, end_of_input, Parsers,
}
use tls_fetch_mcp.Extract.Queries.{
  trimmed, validate_queries, detect_format, result_limit, output_limit,
}
use tls_fetch_mcp.Extract.Queries.Accepted.{IsGood, HaveDistinctNames, validate_queries_iff}
use tls_fetch_mcp.Extract.Html.{
  extract_html, collect, html_node_value, resolved, is_attribute, is_text, is_inner, is_outer,
  html_value, normalized_node_text, own_part,
}
use tls_fetch_mcp.Extract.Html.Answers as Html
use tls_fetch_mcp.Extract.Html.Words.{words, own_words, normalized_node_text-words}
use tls_fetch_mcp.Extract.Json.{extract_json, json_value}
use tls_fetch_mcp.Extract.Json.Picked as Json
use tls_fetch_mcp.Extract.Fit.{
  fit_output, fit_on, output_size, size_from, output_text, remove_value, value_count, results_text,
}
use tls_fetch_mcp.Extract.Fit.Removed.{keep}
use tls_fetch_mcp.Extract.Fit.Size.{bare_len}
use tls_fetch_mcp.Text.Decimal.{decimal_len}
use tls_fetch_mcp.Text.Fields.{join_spaced}
use tls_fetch_mcp.Text.Space.{trim_space}
use tls_fetch_mcp.Text.Case.{to_lower}
use tls_fetch_mcp.Text.Utf8.{valid}
use tls_fetch_mcp.Extract.{
  total_returned, any_limited, extract_plan, extract_results, extract_record,
}

abbrev text_of : Bytes → Node
text_of content = node text_node content [] no_nodes

abbrev link : Bytes → Bytes → Node
link href content =
    node element_node (ascii "a") (record { key = ascii "href"; val = href } ∷ [])
      (next_node (text_of content) no_nodes)

abbrev first_link : Node
first_link = link (ascii "/1") (ascii " First\n Item ")

abbrev second_link : Node
second_link = link (ascii "/2") (ascii "Second")

-- A link without a target.
abbrev bare_link : Node
bare_link = node element_node (ascii "a") [] (next_node (text_of (ascii "x")) no_nodes)

abbrev document : Node
document =
    node document_node [] []
      (next_node first_link (next_node bare_link (next_node second_link no_nodes)))

abbrev url_of : Bytes → Url
url_of text = record {
  scheme = ascii "https";
  has_user = false;
  hostname = ascii "e.com";
  text = text;
}

-- Libraries that know one document and one selector; a JSON value is a number.
abbrev pub parsers : Parsers ℕ
parsers = record {
  unicode = ascii_only;
  parse_media_type = λ s. some s;
  parse_url = λ s. some (url_of s);
  resolve_reference = λ base reference. base.text ++ reference.text;
  parse_html = λ s. some document;
  render = λ n. some (ascii "<a>");
  compile_css = λ s.
      if eq_bytes s (ascii "a")
      then some (λ d. first_link ∷ bare_link ∷ second_link ∷ [])
      else none;
  decode = λ s. if has_prefix s (ascii "7") then decoded 7 [] else end_of_input;
  parse_jsonpath = λ s. some (λ v. record { node = v; path = ascii "$" } ∷ []);
  marshal = λ v. some (ascii "7");
}

unfoldable pub program : Unit {0}
unfolding extract_record extract_plan extract_results validate_queries detect_format result_limit
    output_limit extract_html extract_json fit_output fit_on output_size size_from output_text
    remove_value value_count collect html_node_value resolved valid is_attribute is_text is_inner
    is_outer decimal_len bare_len keep results_text total_returned any_limited trim_space to_lower
    words own_words join_spaced own_part
program = tt

abbrev pub page : StoredResponse
page = record {
  body = ascii "<a></a>";
  body_encoding = ascii "utf-8";
  content_type = ascii "text/html";
  final_url = ascii "https://e.com";
  truncated = false;
  created_at = pos 0;
  expires_at = pos 60;
}

abbrev pub links : Query
links = record {
  name = ascii "links";
  selector = ascii "a";
  mode = ascii "attribute";
  attribute = ascii "HREF";
  resolve_urls = true;
}

abbrev pub texts : Query
texts = record {
  name = ascii "texts";
  selector = ascii " a ";
  mode = [];
  attribute = [];
  resolve_urls = false;
}

abbrev pub page_input : ExtractInput
page_input = record {
  response_id = ascii "r";
  format = ascii "auto";
  queries = links ∷ texts ∷ [];
  max_results = pos 2;
  max_output_bytes = pos 540;
}

abbrev target : Bytes → ExtractedValue
target path = html_value (ascii "attribute") (ascii "https://e.com" ++ path)

-- The link without a target takes no place.
abbrev links_result : QueryResult
links_result = record {
  name = ascii "links";
  selector = ascii "a";
  mode = ascii "attribute";
  values = target (ascii "/1") ∷ target (ascii "/2") ∷ [];
  matched_count = 3;
  returned_count = 2;
  limited = false;
}

abbrev texts_result : QueryResult
texts_result = record {
  name = ascii "texts";
  selector = ascii "a";
  mode = ascii "text";
  values =
      html_value (ascii "text") (ascii "First Item") ∷ html_value (ascii "text") (ascii "x") ∷ [];
  matched_count = 3;
  returned_count = 2;
  limited = true;
}

abbrev pub page_results : List QueryResult
page_results = links_result ∷ texts_result ∷ []

page_extracts :
    extract_html parsers page (map (trimmed ascii_only) (links ∷ texts ∷ [])) 2 ≡ ok page_results
unfolding program
page_extracts = refl

extract_html-Answers_example :
    (document : Node) × (parsers.parse_html page.body ≡ some document)
    × Each
        (Html.Answers parsers document (Html.base_of parsers page) 2)
        (map (trimmed ascii_only) (links ∷ texts ∷ []))
        page_results
extract_html-Answers_example =
    Html.extract_html-Answers parsers page (map (trimmed ascii_only) (links ∷ texts ∷ [])) 2
      page_results page_extracts

normalized_node_text-words_example : normalized_node_text document ≡ join_spaced (words document)
normalized_node_text-words_example = normalized_node_text-words document

-- The words of a document, in their order.
document-words : words document ≡ ascii "First" ∷ ascii "Item" ∷ ascii "x" ∷ ascii "Second" ∷ []
unfolding program
document-words = refl

validate_queries_iff_example :
    (validate_queries ascii_only (links ∷ texts ∷ [])
      ≡ ok (map (trimmed ascii_only) (links ∷ texts ∷ [])))
    ↔ ((1 ≤ 2)
        × (2 ≤ 16)
        × (map (trimmed ascii_only) (links ∷ texts ∷ [])
            ≡ map (trimmed ascii_only) (links ∷ texts ∷ []))
        × All IsGood (map (trimmed ascii_only) (links ∷ texts ∷ []))
        × HaveDistinctNames (map (trimmed ascii_only) (links ∷ texts ∷ [])))
validate_queries_iff_example =
    validate_queries_iff ascii_only (links ∷ texts ∷ [])
      (map (trimmed ascii_only) (links ∷ texts ∷ []))

-- The second name is the first once both are trimmed.
duplicate_refused :
    validate_queries ascii_only (texts ∷ record links { name = ascii " texts" } ∷ [])
    ≡ err (query_name_duplicated 1 (ascii "texts"))
unfolding program
duplicate_refused = refl

abbrev number : Query
number = record texts { name = ascii "n"; selector = ascii "$" }

abbrev number_result : QueryResult
number_result = record {
  name = ascii "n";
  selector = ascii "$";
  mode = ascii "json";
  values = json_value (ascii "7") (ascii "$") ∷ [];
  matched_count = 1;
  returned_count = 1;
  limited = false;
}

number_extracts : extract_json parsers (ascii "7") (number ∷ []) 20 ≡ ok (number_result ∷ [])
unfolding program
number_extracts = refl

extract_json-Answers_example :
    (document : ℕ) × Json.IsDocument parsers (ascii "7") document
    × Each (Json.Answers parsers document 20) (number ∷ []) (number_result ∷ [])
extract_json-Answers_example =
    Json.extract_json-Answers parsers (ascii "7") (number ∷ []) 20 (number_result ∷ [])
      number_extracts
