-- ===== src/Request.antt =====
-- internal/fetch/fetch.go: the limits of one request, and the reading of its response within them.
use tls_fetch_mcp.Common.{
  Bool, [], false, if◌then◌else◌, is_zero, leb_ℤ, length, ltb_ℤ, pos, pos_part, take, true, wrap64,
  ℤ, ◌&&◌, ◌+ℤ◌, ◌||◌,
}
pub mod Limits
pub mod Body
pub mod Headers
pub mod Exchange
pub mod Send
pub mod Tests
use tls_fetch_mcp.Text.{Bytes}
use tls_fetch_mcp.Errors.{Result, ok, err, ◌>>=◌, bad_timeout, bad_response_limit, read_failed}
use tls_fetch_mcp.Config.{Config}
use tls_fetch_mcp.Response.Read.{slice_bytes}

-- `timeout`.
unfoldable pub timeout : Config → ℤ → Result ℤ
timeout config requested =
    if is_zero requested
    then ok config.default_timeout_seconds
    else if ltb_ℤ requested (pos 0) || ltb_ℤ config.max_timeout requested
    then err (bad_timeout config.max_timeout)
    else ok requested

-- `responseLimit`.
unfoldable pub response_limit : Config → ℤ → Result ℤ
response_limit config requested =
    if is_zero requested
    then ok config.max_response_bytes
    else if ltb_ℤ requested (pos 0) || ltb_ℤ config.max_response_bytes requested
    then err (bad_response_limit config.max_response_bytes)
    else ok requested

-- The body of a response as it arrives: its bytes, and whether an error follows them.
pub record Stream : Type 0 where
  pub bytes : Bytes
  pub broken : Bool

-- `io.ReadAll(io.LimitReader(r, n))`: after `n` bytes the reader is not asked again; a limit that is not
-- positive reads nothing.
unfoldable pub read_limited : ℤ → Stream → Result Bytes
read_limited n stream =
    if leb_ℤ n (pos 0)
    then ok []
    else if ltb_ℤ (pos (length stream.bytes)) n && stream.broken
    then err read_failed
    else ok (take (pos_part n) stream.bytes)

-- `Do` between the answer and its encoding: the body, and whether it was truncated.
unfoldable pub read_body : ℤ → Stream → Result (Bytes × Bool)
unfolding wrap64 ◌+ℤ◌
read_body response_limit stream = read_limited (wrap64 (response_limit +ℤ pos 1)) stream >>= λ body.
    elim (ltb_ℤ response_limit (pos (length body))) [
      | true ↦ slice_bytes body (pos 0) response_limit >>= λ part. ok (part, true)
      | false ↦ ok (body, false)
    ]
