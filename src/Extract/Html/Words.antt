-- ===== src/Extract/Html/Words.antt =====
-- normalizedNodeText of internal/fetch/extract.go.
use tls_fetch_mcp.Common.{All, All-append, List, [], ap, refl, sym, ◌++◌, ◌∙◌, ◌∷◌, ◌≡◌}
use tls_fetch_mcp.Text.{Bytes}
use tls_fetch_mcp.Text.Fields.{fields, join_spaced, IsWord, fields-AreWords, join-append, glue}
use tls_fetch_mcp.Extract.Types.{
  NodeType, text_node, error_node, document_node, element_node, comment_node, doctype_node,
  raw_node, Node, node, Nodes, no_nodes, next_node,
}
use tls_fetch_mcp.Extract.Html.{own_part, parts, parts_all, normalized_node_text}

-- The words of a node of its own: those of its text.
unfoldable pub own_words : NodeType → Bytes → List Bytes
own_words text_node content = fields content
own_words other content = []

-- The words of all text at a node and below it, in the order of the document.
unfoldable mutual
  pub words : Node → List Bytes
  words (node type content attributes children) = own_words type content ++ words_all children

  pub words_all : Nodes → List Bytes
  words_all no_nodes = []
  words_all (next_node child children) = words child ++ words_all children

-- The parts are those words, joined piece by piece.
abbrev Joins : List Bytes → List Bytes → Type 0
Joins ps ws = All IsWord ps × All IsWord ws × (join_spaced ps ≡ join_spaced ws)

Joins-append : (ps ws qs vs : List Bytes) → Joins ps ws → Joins qs vs → Joins (ps ++ qs) (ws ++ vs)
Joins-append ps ws qs vs (p, w, e) (q, v, d) = (
  All-append IsWord ps qs p q,
  All-append IsWord ws vs w v,
  join-append ps qs p q
      ∙ ap (λ s. glue s (join_spaced qs)) e
      ∙ ap (glue (join_spaced ws)) d
      ∙ sym (join-append ws vs w v),
)

part-Joins :
    (text : Bytes) (ws : List Bytes)
    → All IsWord ws
    → join_spaced ws ≡ text
    → Joins (elim text [ [] ↦ [] | c ∷ s ↦ (c ∷ s) ∷ [] ]) ws
unfolding join_spaced
part-Joins [] ws h e = (tt, h, sym e)
part-Joins (c ∷ s) ws h e = ((λ q. cc, tt), h, sym e)

own-Joins :
    (type : NodeType) (content : Bytes) → Joins (own_part type content) (own_words type content)
unfolding own_part own_words
own-Joins text_node content =
    part-Joins (join_spaced (fields content)) (fields content) (fields-AreWords content) refl
own-Joins error_node content = (tt, tt, refl)
own-Joins document_node content = (tt, tt, refl)
own-Joins element_node content = (tt, tt, refl)
own-Joins comment_node content = (tt, tt, refl)
own-Joins doctype_node content = (tt, tt, refl)
own-Joins raw_node content = (tt, tt, refl)

mutual
  unfolding parts words

  parts-Joins : (n : Node) → Joins (parts n) (words n)
  parts-Joins (node type content attributes children) =
      Joins-append (own_part type content) (own_words type content) (parts_all children)
        (words_all children) (own-Joins type content) (parts_all-Joins children)

  parts_all-Joins : (ns : Nodes) → Joins (parts_all ns) (words_all ns)
  parts_all-Joins no_nodes = (tt, tt, refl)
  parts_all-Joins (next_node child children) =
      Joins-append (parts child) (words child) (parts_all children) (words_all children)
        (parts-Joins child) (parts_all-Joins children)

-- The text of a node consists of the words of all text nodes at it and below it, in the order of the
-- document, with one space between two words and none elsewhere, however the words are spread over
-- the nodes.
pub normalized_node_text-words : (n : Node) → normalized_node_text n ≡ join_spaced (words n)
unfolding normalized_node_text
normalized_node_text-words n = (parts-Joins n).2
