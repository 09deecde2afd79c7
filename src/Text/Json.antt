-- ===== src/Text/Json.antt =====
-- The texts that package `encoding/json` writes: strings with the escapes for HTML, numbers, Booleans
-- and arrays.
pub mod Size
use tls_fetch_mcp.Common.{
  Bool, List, [], false, if◌then◌else◌, ltb, refl, suc, true, zero, ℕ, ◌%◌, ◌++◌, ◌+◌, ◌-◌, ◌/◌,
  ◌==◌, ◌||◌, ◌∷◌, ◌≡◌,
}
use tls_fetch_mcp.Text.{Bytes, ascii, has_prefix}
use tls_fetch_mcp.Text.Utf8.{rune_width}

-- The hexadecimal digit of `\u00XX`.
abbrev hex : ℕ → ℕ
hex n = if ltb n 10 then b'0' + n else b'a' + (n - 10)

-- What stands for an ASCII byte.
unfoldable pub escape_byte : ℕ → Bytes
escape_byte c =
    if c == b'"' || c == b'\\'
    then b'\\' ∷ c ∷ []
    else if c == 8
    then ascii "\\b"
    else if c == 9
    then ascii "\\t"
    else if c == 10
    then ascii "\\n"
    else if c == 12
    then ascii "\\f"
    else if c == 13
    then ascii "\\r"
    else if ltb c 32 || c == b'<' || c == b'>' || c == b'&'
    then ascii "\\u00" ++ (hex (c / 16) ∷ hex (c % 16) ∷ [])
    else c ∷ []

-- U+2028 and U+2029.
abbrev line_separator : Bytes
line_separator = 0xE2 ∷ 0x80 ∷ 0xA8 ∷ []

abbrev paragraph_separator : Bytes
paragraph_separator = 0xE2 ∷ 0x80 ∷ 0xA9 ∷ []

-- What stands for the rune of more than one byte that the text begins with, if it is not kept.
abbrev escape_rune : Bytes → Bytes
escape_rune s =
    if has_prefix s line_separator
    then ascii "\\u2028"
    else if has_prefix s paragraph_separator
    then ascii "\\u2029"
    else []

-- The number counts the bytes of the current rune that are still to come, and the flag tells whether
-- they are kept. A byte that begins no rune becomes U+FFFD.
unfoldable pub quote_from : Bool → ℕ → Bytes → Bytes
unfolding escape_byte rune_width has_prefix
quote_from keep n [] = []
quote_from keep (suc n) (c ∷ s) = (if keep then c ∷ [] else []) ++ quote_from keep n s
quote_from keep zero (c ∷ s) = elim (rune_width (c ∷ s)) [
  | zero ↦ ascii "\\ufffd" ++ quote_from keep 0 s
  | suc zero ↦ escape_byte c ++ quote_from keep 0 s
  | suc (suc m) ↦ elim (escape_rune (c ∷ s)) [
    | [] ↦ c ∷ quote_from true (suc m) s
    | x ∷ escape ↦ (x ∷ escape) ++ quote_from false (suc m) s
  ]
]

-- A string.
unfoldable pub quote : Bytes → Bytes
unfolding quote_from
quote s = ascii "\"" ++ (quote_from true 0 s ++ ascii "\"")

abbrev pub bool_text : Bool → Bytes
bool_text true = ascii "true"
bool_text false = ascii "false"

-- The elements of an array with commas in between.
unfoldable pub commas : List Bytes → Bytes
commas [] = []
commas (s ∷ []) = s
commas (s ∷ t ∷ ts) = s ++ (ascii "," ++ commas (t ∷ ts))

abbrev pub array : List Bytes → Bytes
array ts = ascii "[" ++ (commas ts ++ ascii "]")

-- A member of an object, with its value's text.
abbrev pub member : Bytes → Bytes → Bytes
member name value = quote name ++ (ascii ":" ++ value)

-- A member whose value is a string, before others; it is left out if it is empty (`omitempty`).
abbrev pub optional_member : Bytes → Bytes → List Bytes → List Bytes
optional_member name [] members = members
optional_member name (c ∷ s) members = member name (quote (c ∷ s)) ∷ members

abbrev pub object : List Bytes → Bytes
object members = ascii "{" ++ (commas members ++ ascii "}")

-- An accented letter is kept; markup, a line feed, U+2028 and a byte that is no text are escaped.
quote_example :
    quote (ascii "a\"<\n" ++ (0xC3 ∷ 0xA9 ∷ 0xE2 ∷ 0x80 ∷ 0xA8 ∷ 0xFF ∷ 1 ∷ b'z' ∷ []))
    ≡ ascii "\"a\\\"\\u003c\\n" ++ ((0xC3 ∷ 0xA9 ∷ []) ++ ascii "\\u2028\\ufffd\\u0001z\"")
unfolding quote
quote_example = refl
