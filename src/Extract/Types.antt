-- ===== src/Extract/Types.antt =====
-- The data of internal/fetch/extract.go, and the libraries that it calls.
use tls_fetch_mcp.Common.{Bool, List, Option, ℕ, ℤ}
use tls_fetch_mcp.Text.{Bytes}
use tls_fetch_mcp.Text.Case.{Unicode}
use tls_fetch_mcp.Policy.{Url}

-- `ExtractQuery`.
pub record Query : Type 0 where
  pub name : Bytes
  pub selector : Bytes
  pub mode : Bytes
  pub attribute : Bytes
  pub resolve_urls : Bool

-- `ResponseExtractInput`.
pub record ExtractInput : Type 0 where
  pub response_id : Bytes
  pub format : Bytes
  pub queries : List Query
  pub max_results : ℤ
  pub max_output_bytes : ℤ

-- `ExtractedValue`; an empty path is left out of the text.
pub record ExtractedValue : Type 0 where
  pub value : Bytes
  pub encoding : Bytes
  pub path : Bytes

-- `ExtractQueryResult`.
pub record QueryResult : Type 0 where
  pub name : Bytes
  pub selector : Bytes
  pub mode : Bytes
  pub values : List ExtractedValue
  pub matched_count : ℕ
  pub returned_count : ℕ
  pub limited : Bool

-- `ResponseExtractOutput`.
pub record ExtractOutput : Type 0 where
  pub response_id : Bytes
  pub format : Bytes
  pub content_type : Bytes
  pub final_url : Bytes
  pub source_bytes : ℕ
  pub source_truncated : Bool
  pub results : List QueryResult
  pub returned_count : ℕ
  pub limited : Bool
  pub output_bytes : ℕ

-- `html.NodeType`.
pub data NodeType : Type 0 where
  error_node text_node document_node element_node comment_node doctype_node raw_node : NodeType

-- `html.Attribute`.
pub record Attribute : Type 0 where
  pub key : Bytes
  pub val : Bytes

-- `html.Node`: its type, data and attributes, and its children in their order.
mutual
  pub data Node : Type 0 where
    node : NodeType → Bytes → List Attribute → Nodes → Node

  pub data Nodes : Type 0 where
    no_nodes : Nodes
    next_node : Node → Nodes → Nodes

-- A call of `Decode`: a value and what is behind it, `io.EOF`, or another error.
pub data Decoded (Value : Type 0) : Type 0 where
  decoded : Value → Bytes → Decoded Value
  end_of_input : Decoded Value
  malformed : Decoded Value

-- A node that `SelectLocated` yields, with the text of its path.
pub record Located (Value : Type 0) : Type 0 where
  pub node : Value
  pub path : Bytes

-- The libraries: packages mime, net/url, golang.org/x/net/html, cascadia, jsonpath, and the JSON values
-- of encoding/json with numbers kept as texts. `none` is an error.
pub record Parsers (Value : Type 0) : Type 0 where
  pub unicode : Unicode
  pub parse_media_type : Bytes → Option Bytes
  pub parse_url : Bytes → Option Url
  -- `base.ResolveReference(reference).String()`
  pub resolve_reference : Url → Url → Bytes
  pub parse_html : Bytes → Option Node
  pub render : Node → Option Bytes
  -- `cascadia.Compile`, and `MatchAll` of the selector
  pub compile_css : Bytes → Option (Node → List Node)
  pub decode : Bytes → Decoded Value
  -- `jsonpath.Parse`, and `SelectLocated` of the path
  pub parse_jsonpath : Bytes → Option (Value → List (Located Value))
  pub marshal : Value → Option Bytes
