-- ===== src/Extract/Html/Picked.antt =====
-- The loop over the nodes in extractHTML of internal/fetch/extract.go.
use tls_fetch_mcp.Common.{
  Bool, Each, List, Option, Option-cases, [], ap, append-nil, append_assoc, arith, false, inl, inr,
  leb, length, length-append, none, refl, some, subst, suc, sym, take, take-nil, true, ℕ, ◌++◌, ◌+◌,
  ◌-◌, ◌<◌, ◌∙◌, ◌∷◌, ◌≡◌, ◌≤◌, ◌⊎◌,
}
use tls_fetch_mcp.Text.{Bytes, ascii}
use tls_fetch_mcp.Text.Case.{Unicode}
use tls_fetch_mcp.Errors.{Result, ok, ◌>>=◌, Result-cases}
use tls_fetch_mcp.Policy.{Url}
use tls_fetch_mcp.Extract.Types.{Query, ExtractedValue, Node, Parsers}
use tls_fetch_mcp.Extract.Html.{
  find_attribute, attributes_of, is_text, is_inner, is_outer, is_attribute, html_node_value,
  resolved, html_value, collect,
}

-- The values of the attribute at the nodes that have it, in their order.
unfoldable pub attribute_values : Unicode → Bytes → List Node → List Bytes
attribute_values u name [] = []
attribute_values u name (n ∷ nodes) = elim (find_attribute u name (attributes_of n)) [
  | none ↦ attribute_values u name nodes
  | some value ↦ value ∷ attribute_values u name nodes
]

room_or_full : (n limit : ℕ) → (n < limit) ⊎ (limit ≤ n)
room_or_full n limit = ground arith

module _ {Value : Type 0} (w : Parsers Value) where
  -- The value is the text, resolved against the base if that is asked for.
  abbrev pub IsTarget : Option Url → Bool → Bytes → ExtractedValue → Type 0
  IsTarget base false text v = v ≡ html_value (ascii "attribute") text
  IsTarget base true text v =
      (url : Url) × (reference : Url) × (base ≡ some url)
      × (w.parse_url text ≡ some reference)
      × (v ≡ html_value (ascii "attribute") (w.resolve_reference url reference))

  resolved-IsTarget :
      (i : ℕ) (base : Option Url) (resolve : Bool) (text final : Bytes)
      → resolved w i base resolve text ≡ ok final
      → IsTarget base resolve text (html_value (ascii "attribute") final)
  unfolding resolved
  resolved-IsTarget i base false text final h = ground arith
  resolved-IsTarget i none true text final h = cc
  resolved-IsTarget i (some url) true text final h = elim (Option-cases (w.parse_url text)) [
    | inl e ↦ absurd (ground arith)
    | inr (reference, e) ↦
        let shape : w.resolve_reference url reference ≡ final = ground arith in
        (url, reference, refl, e, ap (html_value (ascii "attribute")) (sym shape))
  ]

  attribute_node :
      (name : Bytes) (n : Node)
      → html_node_value w (ascii "attribute") name n
        ≡ ok (find_attribute w.unicode name (attributes_of n))
  unfolding html_node_value is_text is_inner is_outer is_attribute
  attribute_node name n = refl

  module _ (i : ℕ) (base : Option Url) (max_results : ℕ) (q : Query) where
    -- The loop in the mode for attributes.
    abbrev gather : ℕ → List ExtractedValue → List Node → Result (ℕ × List ExtractedValue)
    gather = collect w i base max_results (ascii "attribute") q

    gather_skips :
        (count : ℕ) (values : List ExtractedValue) (n : Node) (nodes : List Node)
        → find_attribute w.unicode q.attribute (attributes_of n) ≡ none
        → gather count values (n ∷ nodes) ≡ gather count values nodes
    unfolding collect
    gather_skips count values n nodes e = rw (attribute_node q.attribute n, e, collect) refl

    gather_counts :
        (count : ℕ) (values : List ExtractedValue) (n : Node) (nodes : List Node) (text : Bytes)
        → find_attribute w.unicode q.attribute (attributes_of n) ≡ some text
        → max_results ≤ length values
        → gather count values (n ∷ nodes) ≡ gather (count + 1) values nodes
    unfolding collect is_attribute
    gather_counts count values n nodes text e full =
        let t : leb max_results (length values) ≡ true = ground arith in
        rw (attribute_node q.attribute n, e, collect) (ground arith)

    gather_takes :
        (count : ℕ) (values : List ExtractedValue) (n : Node) (nodes : List Node) (text : Bytes)
        → find_attribute w.unicode q.attribute (attributes_of n) ≡ some text
        → length values < max_results
        → gather count values (n ∷ nodes) ≡ (
            resolved w i base q.resolve_urls text >>= (λ final.
              gather (count + 1) (values ++ (html_value (ascii "attribute") final ∷ [])) nodes))
    unfolding collect is_attribute
    gather_takes count values n nodes text e room =
        let t : leb max_results (length values) ≡ false = ground arith in
        rw (attribute_node q.attribute n, e, collect) (ground arith)

    -- The loop finds these further texts: it counts them all, and the first of them give values, until there
    -- are as many as allowed.
    abbrev Adds : ℕ → List ExtractedValue → List Bytes → ℕ × List ExtractedValue → Type 0
    Adds count values texts (total, all) =
        (total ≡ count + length texts)
        × ((new : List ExtractedValue) × (all ≡ values ++ new)
            × Each (IsTarget base q.resolve_urls) (take (max_results - length values) texts) new)

    Adds-none : (count : ℕ) (values : List ExtractedValue) → Adds count values [] (count, values)
    Adds-none count values =
        (omega arith, ([], sym (append-nil values), rw (take-nil (max_results - length values)) tt))

    Adds-full :
        (count : ℕ) (values : List ExtractedValue) (text : Bytes) (texts : List Bytes)
        (found : ℕ × List ExtractedValue)
        → max_results ≤ length values
        → Adds (count + 1) values texts found
        → Adds count values (text ∷ texts) found
    Adds-full count values text texts found full (e, (new, all, each)) =
        let none_left : max_results - length values ≡ 0 = omega arith in
        (omega (arith, e), (new, all, rw none_left (rw none_left at each)))

    Adds-take :
        (count : ℕ) (values : List ExtractedValue) (text : Bytes) (texts : List Bytes)
        (v : ExtractedValue) (found : ℕ × List ExtractedValue)
        → length values < max_results
        → IsTarget base q.resolve_urls text v
        → Adds (count + 1) (values ++ (v ∷ [])) texts found
        → Adds count values (text ∷ texts) found
    Adds-take count values text texts v found room target (e, (new, all, each)) =
        let left : max_results - length values ≡ suc (max_results - length (values ++ (v ∷ []))) =
          omega (arith, length-append values (v ∷ [])) in
        (
          omega (arith, e),
          (v ∷ new, all ∙ append_assoc values (v ∷ []) new, rw left (target, each)),
        )

    values_without :
        (n : Node) (nodes : List Node)
        → find_attribute w.unicode q.attribute (attributes_of n) ≡ none
        → attribute_values w.unicode q.attribute (n ∷ nodes)
          ≡ attribute_values w.unicode q.attribute nodes
    unfolding attribute_values
    values_without n nodes e = rw (e, attribute_values) refl

    values_with :
        (n : Node) (nodes : List Node) (text : Bytes)
        → find_attribute w.unicode q.attribute (attributes_of n) ≡ some text
        → attribute_values w.unicode q.attribute (n ∷ nodes)
          ≡ text ∷ attribute_values w.unicode q.attribute nodes
    unfolding attribute_values
    values_with n nodes text e = rw (e, attribute_values) refl

    -- What the loop has found at its end.
    pub gather-Adds :
        (count : ℕ) (values : List ExtractedValue) (nodes : List Node)
        (found : ℕ × List ExtractedValue)
        → gather count values nodes ≡ ok found
        → Adds count values (attribute_values w.unicode q.attribute nodes) found
    unfolding collect attribute_values
    gather-Adds count values [] found h =
        let e : (count, values) ≡ found = ground arith in
        subst (Adds count values []) e (Adds-none count values)
    gather-Adds count values (n ∷ nodes) found h =
        let texts = attribute_values w.unicode q.attribute nodes in
        elim (Option-cases (find_attribute w.unicode q.attribute (attributes_of n))) [
          | inl e ↦
              subst (λ ts. Adds count values ts found) (sym (values_without n nodes e))
                (gather-Adds count values nodes found
                  (sym (gather_skips count values n nodes e) ∙ h))
          | inr (text, e) ↦
              subst (λ ts. Adds count values ts found) (sym (values_with n nodes text e))
                (elim (room_or_full (length values) max_results) [
                  | inr full ↦ Adds-full count values text texts found full (
                      gather-Adds (count + 1) values nodes found
                        (sym (gather_counts count values n nodes text e full) ∙ h))
                  | inl room ↦
                      let h' = sym (gather_takes count values n nodes text e room) ∙ h in
                      elim (Result-cases (resolved w i base q.resolve_urls text)) [
                        | inr (f, r) ↦ absurd (ground arith)
                        | inl (final, r) ↦
                            let v = html_value (ascii "attribute") final in
                            Adds-take count values text texts v found room
                              (resolved-IsTarget i base q.resolve_urls text final r)
                              (gather-Adds (count + 1) (values ++ (v ∷ [])) nodes found
                                (rw r at h'))
                      ]
                ])
        ]
