-- ===== src/Encoding.antt =====
-- Packages `encoding/hex` and `encoding/base64`, and `encodeBody` of internal/fetch/fetch.go with the
-- decoding that its reader does.
use tls_fetch_mcp.Common.{
  All, Bool-cases, [], arith, false, if◌then◌else◌, inl, inr, length, ltb, refl, true, ℕ, ◌%◌, ◌*◌,
  ◌+◌, ◌-◌, ◌/◌, ◌<◌, ◌↔◌, ◌∷◌, ◌≡◌,
}
pub mod Base64
pub mod Tests
use tls_fetch_mcp.Text.{Bytes, ascii, eq_bytes}
use tls_fetch_mcp.Text.Utf8.{valid, valid-ascii}
use Base64.{encode_base64, decode_base64, decode-encode_base64, encode_base64-ascii}

unfoldable pub hex_digit : ℕ → ℕ
hex_digit n = if ltb n 10 then b'0' + n else b'a' + (n - 10)

-- `hex.EncodeToString`.
unfoldable pub encode_hex : Bytes → Bytes
unfolding hex_digit
encode_hex [] = []
encode_hex (b ∷ s) = hex_digit (b / 16) ∷ hex_digit (b % 16) ∷ encode_hex s

pub length-encode_hex : (s : Bytes) → length (encode_hex s) ≡ 2 * length s
unfolding encode_hex
length-encode_hex [] = omega arith
length-encode_hex (b ∷ s) = omega (arith, length-encode_hex s)

-- `encodeBody`: the text, and the name of its encoding.
unfoldable pub encode_body : Bytes → Bytes × Bytes
encode_body body =
    if valid body then (body, ascii "utf-8") else (encode_base64 body, ascii "base64")

-- What a reader makes of a body in the encoding that comes with it.
abbrev pub decode_body : Bytes × Bytes → Bytes
decode_body (text, encoding) =
    if eq_bytes encoding (ascii "utf-8") then text else decode_base64 text

abbrev pub AreBytes : Bytes → Type 0
AreBytes s = All (λ b. b < 256) s

-- What `encodeBody` promises: the text is valid UTF-8, as a JSON string must be, and decodes to the body;
-- a body that is text is put out as it is, and the name of the encoding says whether it was.
abbrev pub Encodes : Bytes → Bytes × Bytes → Type 0
Encodes body (text, encoding) =
    (valid text ≡ true)
    × (decode_body (text, encoding) ≡ body)
    × ((valid body ≡ true) ↔ (encoding ≡ ascii "utf-8"))
    × ((valid body ≡ false) ↔ (encoding ≡ ascii "base64"))
    × (valid body ≡ true → text ≡ body)

-- The text that `encodeBody` makes of a body of bytes is valid UTF-8, and the body comes back from it and
-- the name of the encoding. The name is utf-8 exactly if the body is valid UTF-8, and then the text is
-- the body itself; else it is base64.
pub encode_body-Encodes : (body : Bytes) → AreBytes body → Encodes body (encode_body body)
unfolding encode_body eq_bytes
encode_body-Encodes body h = elim (Bool-cases (valid body)) [
  | inl text ↦
      rw (text, encode_body)
        (text, refl, ((λ e. refl), (λ e. refl)), ((λ e. absurd cc), (λ e. absurd cc)), (λ e. refl))
  | inr raw ↦
      rw (raw, encode_body)
        (
          valid-ascii (encode_base64 body) (encode_base64-ascii body h),
          decode-encode_base64 body h,
          ((λ e. absurd cc), (λ e. absurd cc)),
          ((λ e. refl), (λ e. refl)),
          (λ e. absurd cc),
        )
]
