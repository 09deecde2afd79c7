-- ===== src/Request/Body.antt =====
-- The reading of a response's body in Do of internal/fetch/fetch.go.
use tls_fetch_mcp.Common.{
  Bool-cases, List, [], ap, arith, if◌then◌else◌, inl, inr, leb, length, length-take, ltb, pos,
  refl, suc, take, take_of_length-le, two_63, zero, ℕ, ◌&&◌, ◌+◌, ◌-◌, ◌<◌, ◌∷◌, ◌≡◌, ◌≤◌,
}
use tls_fetch_mcp.Text.{Bytes}
use tls_fetch_mcp.Errors.{ok, err, read_failed}
use tls_fetch_mcp.Response.Read.{slice_bytes}
use tls_fetch_mcp.Request.{Stream, read_limited, read_body}

take-take : {A : Type 0} (n m : ℕ) (xs : List A) → n ≤ m → take n (take m xs) ≡ take n xs
take-take zero m xs h = refl
take-take (suc n) zero xs h = elim h [ ]
take-take (suc n) (suc m) [] h = refl
take-take (suc n) (suc m) (x ∷ xs) h = rw (take-take n m xs (omega arith))

-- The bytes up to the limit, out of one more.
cut :
    (limit : ℕ) (s : Bytes)
    → limit < length s
    → slice_bytes (take (limit + 1) s) (pos 0) (pos limit) ≡ ok (take limit s)
unfolding slice_bytes
cut limit s h = ground (
  arith,
  length-take (limit + 1) s,
  ap (λ k. take k (take (limit + 1) s)) {x = limit - 0} {y = limit} (omega arith),
  take-take limit (limit + 1) s (omega arith),
)

-- Within a limit whose successor fits an `int64`, what is kept is as much of the start of the body as the
-- limit admits, and `truncated` says that there was more; an error of the connection counts only if it
-- comes before the byte behind the limit.
pub read_body-take :
    (limit : ℕ) (stream : Stream)
    → 0 < limit
    → limit + 1 < two_63
    → read_body (pos limit) stream ≡ (
        if leb (length stream.bytes) limit && stream.broken
        then err read_failed
        else ok (take limit stream.bytes, ltb limit (length stream.bytes)))
unfolding read_body read_limited
read_body-take limit stream a b = elim (Bool-cases (leb (length stream.bytes) limit)) [
  | inl short ↦ ground (
    arith,
    take_of_length-le (limit + 1) stream.bytes (ground arith),
    take_of_length-le limit stream.bytes (ground arith),
  )
  | inr long ↦
      ground (arith, length-take (limit + 1) stream.bytes, cut limit stream.bytes (ground arith))
]
