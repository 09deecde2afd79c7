-- ===== src/Text/Number.antt =====
-- `strconv.Atoi`, `strconv.ParseInt(s, 10, 64)` and `strconv.ParseBool`; `none` is the error.
use tls_fetch_mcp.Common.{
  Bool, List, Option, [], if◌then◌else◌, leb, ltb, negsuc, none, pos, some, two_63, ℕ, ℤ, ◌&&◌, ◌*◌,
  ◌+◌, ◌-◌, ◌==◌, ◌∷◌,
}

unfoldable pub is_digit : ℕ → Bool
is_digit c = leb b'0' c && leb c b'9'

-- The value of decimal digits after those read so far.
unfoldable pub digits_value : ℕ → List ℕ → Option ℕ
unfolding is_digit
digits_value n [] = some n
digits_value n (c ∷ s) = if is_digit c then digits_value (n * 10 + (c - b'0')) s else none

-- At least one digit.
unfoldable pub parse_digits : List ℕ → Option ℕ
unfolding digits_value
parse_digits [] = none
parse_digits (c ∷ s) = digits_value 0 (c ∷ s)

abbrev to_int64 : Option ℕ → Option ℤ
to_int64 none = none
to_int64 (some n) = if ltb n two_63 then some (pos n) else none

abbrev to_negative : Option ℕ → Option ℤ
to_negative none = none
to_negative (some n) =
    if n == 0 then some (pos 0) else if leb n two_63 then some (negsuc (n - 1)) else none

-- An optional sign and decimal digits; a value that does not fit is an error.
unfoldable pub parse_int : List ℕ → Option ℤ
unfolding parse_digits
parse_int [] = none
parse_int (c ∷ s) =
    if c == b'-'
    then to_negative (parse_digits s)
    else if c == b'+'
    then to_int64 (parse_digits s)
    else to_int64 (parse_digits (c ∷ s))
