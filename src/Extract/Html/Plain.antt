-- ===== src/Extract/Html/Plain.antt =====
-- The loop over the nodes in extractHTML of internal/fetch/extract.go, in the modes without attributes.
use tls_fetch_mcp.Common.{
  Each, List, Option, Option-cases, [], append-nil, append_assoc, arith, false, inl, inr, none,
  refl, some, subst, sym, ℕ, ◌++◌, ◌∙◌, ◌∷◌, ◌≡◌, ◌≢◌,
}
use tls_fetch_mcp.Text.{Bytes}
use tls_fetch_mcp.Errors.{Error, ok, err, Result-cases}
use tls_fetch_mcp.Policy.{Url}
use tls_fetch_mcp.Extract.Types.{Query, ExtractedValue, Node, Parsers}
use tls_fetch_mcp.Extract.Html.{
  is_attribute, children_of, render_all, html_node_value, resolved, html_value, collect,
}

module _ {Value : Type 0} (w : Parsers Value) where
  -- Behind the other modes, a value exists or rendering has failed.
  node-exists :
      (mode name : Bytes) (n : Node)
      → is_attribute mode ≡ false
      → html_node_value w mode name n ≢ ok none
  unfolding html_node_value
  node-exists mode name n other h = elim (Result-cases (render_all w (children_of n))) [
    | inl (output, r) ↦ elim (Option-cases (w.render n)) [
      | inl o ↦ ground arith
      | inr (s, o) ↦ ground arith
    ]
    | inr (e, r) ↦ elim (Option-cases (w.render n)) [
      | inl o ↦ ground arith
      | inr (s, o) ↦ ground arith
    ]
  ]

  -- The value shows what the mode reads at the node.
  abbrev pub Shows : Bytes → Bytes → Node → ExtractedValue → Type 0
  Shows mode name n v =
      (text : Bytes) × (html_node_value w mode name n ≡ ok (some text)) × (v ≡ html_value mode text)

  module _ (i : ℕ) (base : Option Url) (max_results : ℕ) (mode : Bytes) (q : Query)
      (other : is_attribute mode ≡ false) (plain : q.resolve_urls ≡ false) where
    collect_takes :
        (count : ℕ) (values : List ExtractedValue) (n : Node) (nodes : List Node) (text : Bytes)
        → html_node_value w mode q.attribute n ≡ ok (some text)
        → collect w i base max_results mode q count values (n ∷ nodes)
          ≡ collect w i base max_results mode q count (values ++ (html_value mode text ∷ [])) nodes
    unfolding collect resolved
    collect_takes count values n nodes text e = ground arith

    collect_fails :
        (count : ℕ) (values : List ExtractedValue) (n : Node) (nodes : List Node)
        (found : ℕ × List ExtractedValue) (e : Error)
        → html_node_value w mode q.attribute n ≡ err e
        → collect w i base max_results mode q count values (n ∷ nodes) ≢ ok found
    unfolding collect
    collect_fails count values n nodes found e f h = ground arith

    -- The loop shows these nodes too, in their order.
    abbrev Adds : ℕ → List ExtractedValue → List Node → ℕ × List ExtractedValue → Type 0
    Adds count values nodes (total, all) =
        (total ≡ count)
        × ((new : List ExtractedValue) × (all ≡ values ++ new)
            × Each (Shows mode q.attribute) nodes new)

    Adds-cons :
        (count : ℕ) (values : List ExtractedValue) (n : Node) (nodes : List Node)
        (v : ExtractedValue) (found : ℕ × List ExtractedValue)
        → Shows mode q.attribute n v
        → Adds count (values ++ (v ∷ [])) nodes found
        → Adds count values (n ∷ nodes) found
    Adds-cons count values n nodes v found shows (e, (new, all, each)) =
        (e, (v ∷ new, all ∙ append_assoc values (v ∷ []) new, (shows, each)))

    -- What the loop has found at its end.
    pub collect-Adds :
        (count : ℕ) (values : List ExtractedValue) (nodes : List Node)
        (found : ℕ × List ExtractedValue)
        → collect w i base max_results mode q count values nodes ≡ ok found
        → Adds count values nodes found
    unfolding collect
    collect-Adds count values [] found h =
        let e : (count, values) ≡ found = ground arith in
        subst (Adds count values []) e (refl, ([], sym (append-nil values), tt))
    collect-Adds count values (n ∷ nodes) found h =
        elim (Result-cases (html_node_value w mode q.attribute n)) [
          | inr (f, r) ↦ absurd (collect_fails count values n nodes found f r h)
          | inl (none, r) ↦ absurd (node-exists mode q.attribute n other r)
          | inl (some text, r) ↦
              Adds-cons count values n nodes (html_value mode text) found (text, r, refl)
                (collect-Adds count (values ++ (html_value mode text ∷ [])) nodes found
                  (sym (collect_takes count values n nodes text r) ∙ h))
        ]
