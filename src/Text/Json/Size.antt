-- ===== src/Text/Json/Size.antt =====
-- The lengths of JSON texts.
use tls_fetch_mcp.Common.{List, [], arith, length, length-append, ℕ, ◌++◌, ◌+◌, ◌∷◌, ◌≡◌}
use tls_fetch_mcp.Text.{Bytes, ascii}
use tls_fetch_mcp.Text.Json.{quote, commas, member, optional_member, object}

-- The bytes of the texts, and one more for each.
abbrev pub weight : List Bytes → ℕ
weight [] = 0
weight (t ∷ ts) = length t + 1 + weight ts

pub length-commas : (t : Bytes) (ts : List Bytes) → length (commas (t ∷ ts)) + 1 ≡ weight (t ∷ ts)
unfolding commas
length-commas t [] = omega arith
length-commas t (next ∷ ts) =
    omega (arith, length-append t (ascii "," ++ commas (next ∷ ts)), length-commas next ts)

-- The brackets take the place of the comma that is not there.
pub length-object : (t : Bytes) (ts : List Bytes) → length (object (t ∷ ts)) ≡ weight (t ∷ ts) + 1
length-object t ts = omega (arith, length-append (commas (t ∷ ts)) (ascii "}"), length-commas t ts)

pub length-member :
    (name value : Bytes) → length (member name value) ≡ length (quote name) + 1 + length value
length-member name value = omega (arith, length-append (quote name) (ascii ":" ++ value))

pub weight-optional_member :
    (name s : Bytes) (ts : List Bytes)
    → weight (optional_member name s ts) ≡ weight (optional_member name s []) + weight ts
weight-optional_member name [] ts = omega arith
weight-optional_member name (c ∷ s) ts = omega arith
