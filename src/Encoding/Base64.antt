-- ===== src/Encoding/Base64.antt =====
-- `base64.StdEncoding`, and its inverse.
use tls_fetch_mcp.Common.{
  All, [], arith, false, if◌then◌else◌, leb, ltb, refl, ℕ, ◌%◌, ◌*◌, ◌+◌, ◌-◌, ◌/◌, ◌<◌, ◌==◌, ◌∷◌,
  ◌≡◌,
}
use tls_fetch_mcp.Text.{Bytes}

-- The digit for a value below 64.
unfoldable pub to_digit : ℕ → ℕ
to_digit n =
    if ltb n 26
    then b'A' + n
    else if ltb n 52
    then b'a' + (n - 26)
    else if ltb n 62
    then b'0' + (n - 52)
    else if n == 62
    then b'+'
    else b'/'

unfoldable pub encode_base64 : Bytes → Bytes
unfolding to_digit
encode_base64 [] = []
encode_base64 (a ∷ []) = to_digit (a / 4) ∷ to_digit (a % 4 * 16) ∷ b'=' ∷ b'=' ∷ []
encode_base64 (a ∷ b ∷ []) =
    to_digit (a / 4) ∷ to_digit (a % 4 * 16 + b / 16) ∷ to_digit (b % 16 * 4) ∷ b'=' ∷ []
encode_base64 (a ∷ b ∷ c ∷ s) =
    to_digit (a / 4)
    ∷ to_digit (a % 4 * 16 + b / 16)
    ∷ to_digit (b % 16 * 4 + c / 64)
    ∷ to_digit (c % 64)
    ∷ encode_base64 s

-- The value of a digit.
unfoldable pub of_digit : ℕ → ℕ
of_digit c =
    if c == b'+'
    then 62
    else if c == b'/'
    then 63
    else if leb c b'9'
    then c - b'0' + 52
    else if leb c b'Z'
    then c - b'A'
    else c - b'a' + 26

unfoldable pub decode_base64 : Bytes → Bytes
unfolding of_digit
decode_base64 (p ∷ q ∷ r ∷ t ∷ s) =
    let a = of_digit p * 4 + of_digit q / 16 in
    let b = of_digit q % 16 * 16 + of_digit r / 4 in
    let c = of_digit r % 4 * 64 + of_digit t in
    let rest = decode_base64 s in
    if r == b'=' then a ∷ [] else if t == b'=' then a ∷ b ∷ [] else a ∷ b ∷ c ∷ rest
decode_base64 s = []

of_digit-to_digit : (n : ℕ) → n < 64 → of_digit (to_digit n) ≡ n
unfolding of_digit to_digit
of_digit-to_digit n h = ground arith

to_digit-ne-pad : (n : ℕ) → (to_digit n == b'=') ≡ false
unfolding to_digit
to_digit-ne-pad n = ground arith

first_byte :
    (a b : ℕ)
    → a < 256
    → b < 256
    → of_digit (to_digit (a / 4)) * 4 + of_digit (to_digit (a % 4 * 16 + b / 16)) / 16 ≡ a
first_byte a b ha hb =
    omega (arith, of_digit-to_digit (a / 4), of_digit-to_digit (a % 4 * 16 + b / 16))

second_byte :
    (a b c : ℕ)
    → a < 256
    → b < 256
    → c < 256
    → of_digit (to_digit (a % 4 * 16 + b / 16)) % 16 * 16
        + of_digit (to_digit (b % 16 * 4 + c / 64)) / 4
      ≡ b
second_byte a b c ha hb hc =
    omega (arith, of_digit-to_digit (a % 4 * 16 + b / 16), of_digit-to_digit (b % 16 * 4 + c / 64))

third_byte :
    (b c : ℕ)
    → c < 256
    → of_digit (to_digit (b % 16 * 4 + c / 64)) % 4 * 64 + of_digit (to_digit (c % 64)) ≡ c
third_byte b c hc =
    omega (arith, of_digit-to_digit (b % 16 * 4 + c / 64), of_digit-to_digit (c % 64))

last_byte :
    (a : ℕ) → a < 256 → of_digit (to_digit (a / 4)) * 4 + of_digit (to_digit (a % 4 * 16)) / 16 ≡ a
last_byte a ha = omega (arith, of_digit-to_digit (a / 4), of_digit-to_digit (a % 4 * 16))

last_second :
    (a b : ℕ)
    → a < 256
    → b < 256
    → of_digit (to_digit (a % 4 * 16 + b / 16)) % 16 * 16 + of_digit (to_digit (b % 16 * 4)) / 4 ≡ b
last_second a b ha hb =
    omega (arith, of_digit-to_digit (a % 4 * 16 + b / 16), of_digit-to_digit (b % 16 * 4))

-- Decoding what was encoded gives the bytes back.
pub decode-encode_base64 : (s : Bytes) → All (λ b. b < 256) s → decode_base64 (encode_base64 s) ≡ s
unfolding decode_base64 encode_base64
decode-encode_base64 [] h = refl
decode-encode_base64 (a ∷ []) h = rw (last_byte a h.0)
decode-encode_base64 (a ∷ b ∷ []) (ha, (hb, _)) =
    rw (to_digit-ne-pad (b % 16 * 4), first_byte a b ha hb, last_second a b ha hb)
decode-encode_base64 (a ∷ b ∷ c ∷ s) (ha, (hb, (hc, h))) = rw (
  to_digit-ne-pad (b % 16 * 4 + c / 64),
  to_digit-ne-pad (c % 64),
  first_byte a b ha hb,
  second_byte a b c ha hb hc,
  third_byte b c hc,
  decode-encode_base64 s h,
)

to_digit-ascii : (n : ℕ) → n < 64 → to_digit n < 128
unfolding to_digit
to_digit-ascii n h = ground arith

pub encode_base64-ascii : (s : Bytes) → All (λ b. b < 256) s → All (λ b. b < 128) (encode_base64 s)
unfolding encode_base64
encode_base64-ascii [] h = tt
encode_base64-ascii (a ∷ []) h = (
  to_digit-ascii (a / 4) (omega (arith, h)),
  (to_digit-ascii (a % 4 * 16) (omega (arith, h)), (omega arith, (omega arith, tt))),
)
encode_base64-ascii (a ∷ b ∷ []) h = (
  to_digit-ascii (a / 4) (omega (arith, h)),
  (
    to_digit-ascii (a % 4 * 16 + b / 16) (omega (arith, h)),
    (to_digit-ascii (b % 16 * 4) (omega (arith, h)), (omega arith, tt)),
  ),
)
encode_base64-ascii (a ∷ b ∷ c ∷ s) h = (
  to_digit-ascii (a / 4) (omega (arith, h)),
  (
    to_digit-ascii (a % 4 * 16 + b / 16) (omega (arith, h)),
    (
      to_digit-ascii (b % 16 * 4 + c / 64) (omega (arith, h)),
      (to_digit-ascii (c % 64) (omega (arith, h)), encode_base64-ascii s h.1.1.1),
    ),
  ),
)
