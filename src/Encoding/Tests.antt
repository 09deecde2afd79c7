-- ===== src/Encoding/Tests.antt =====
-- A body that is not text, and the theorems applied.
use tls_fetch_mcp.Common.{[], arith, refl, ◌∷◌, ◌≡◌}
use tls_fetch_mcp.Text.{Bytes, ascii}
use tls_fetch_mcp.Text.Utf8.{valid}
use tls_fetch_mcp.Encoding.{encode_body, Encodes, encode_body-Encodes, encode_hex}
use tls_fetch_mcp.Encoding.Base64.{encode_base64}

program : Unit {0}
unfolding valid encode_body encode_hex encode_base64
program = tt

abbrev raw : Bytes
raw = 255 ∷ 0 ∷ 16 ∷ 7 ∷ []

encodes :
    (encode_body raw ≡ (ascii "/wAQBw==", ascii "base64"))
    × (encode_body (ascii "text") ≡ (ascii "text", ascii "utf-8"))
    × (encode_hex raw ≡ ascii "ff001007")
unfolding program
encodes = (refl, refl, refl)

encode_body-Encodes_example : Encodes raw (encode_body raw)
encode_body-Encodes_example =
    encode_body-Encodes raw (omega arith, (omega arith, (omega arith, (omega arith, tt))))
