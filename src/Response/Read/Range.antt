-- ===== src/Response/Read/Range.antt =====
-- The range that ReadResponse of internal/fetch/response_store.go takes.
use tls_fetch_mcp.Common.{
  arith, length, min, pos, slice, two_63, ℕ, ℤ, ◌+ℤ◌, ◌+◌, ◌<ℤ◌, ◌<◌, ◌≡◌, ◌≤ℤ◌, ◌≤◌,
}
use tls_fetch_mcp.Text.{Bytes}
use tls_fetch_mcp.Errors.{ok, err, panic}
use tls_fetch_mcp.Response.Read.{requested_bytes, end_of, slice_bytes, read_range}

-- The sum of an offset within the body and a permitted count does not wrap around.
abbrev pub Fits : ℤ → Bytes → Type 0
Fits max_read_bytes body = pos (length body) +ℤ max_read_bytes <ℤ pos two_63

end_of_exact :
    (body : Bytes) (o m : ℕ)
    → o + m < two_63
    → end_of body (pos o) (pos m) ≡ pos (min (o + m) (length body))
unfolding end_of
end_of_exact body o m h = ground arith

slice_bytes_exact :
    (body : Bytes) (lo hi : ℕ)
    → lo ≤ hi
    → hi ≤ length body
    → slice_bytes body (pos lo) (pos hi) ≡ ok (slice lo hi body)
unfolding slice_bytes
slice_bytes_exact body lo hi a b = ground arith

-- A count of bytes wraps around, and Go's slice expression panics.
end_of_wraps :
    (body : Bytes) (o m : ℕ)
    → length body < two_63
    → o < two_63
    → m < two_63
    → two_63 ≤ o + m
    → end_of body (pos o) (pos m) <ℤ pos 0
unfolding end_of
end_of_wraps body o m n a b c = ground arith

slice_bytes_negative :
    (body : Bytes) (lo : ℕ) (hi : ℤ) → hi <ℤ pos 0 → slice_bytes body (pos lo) hi ≡ err panic
unfolding slice_bytes
slice_bytes_negative body lo hi h = ground arith

module _ (max_read_bytes asked : ℤ) (body : Bytes) (o m : ℕ) (within : o ≤ length body)
    (request : requested_bytes max_read_bytes asked ≡ pos m)
    (allowed : pos m ≤ℤ max_read_bytes) where
  abbrev stop : ℕ
  stop = min (o + m) (length body)

  -- A range that starts within the body and whose count the server permits holds the bytes up to the
  -- count or to the end of the body, whichever comes first, as long as the sum fits an `int64`.
  pub read_range-slice :
      o + m < two_63
      → read_range max_read_bytes (pos o) asked body ≡ ok (pos stop, slice o stop body)
  unfolding read_range
  read_range-slice h =
      ground (arith, end_of_exact body o m h, slice_bytes_exact body o (min (o + m) (length body)))

  -- If an offset within the body and a permitted count have a sum that does not fit an `int64`, while
  -- each of them does, the sum wraps around to a negative end, and the slice expression panics.
  pub read_range_panics :
      length body < two_63
      → m < two_63
      → two_63 ≤ o + m
      → read_range max_read_bytes (pos o) asked body ≡ err panic
  unfolding read_range
  read_range_panics n b c =
      ground
        (arith, end_of_wraps body o m n, slice_bytes_negative body o (end_of body (pos o) (pos m)))
