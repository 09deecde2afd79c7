-- ===== src/Server/Panics/Reads.antt =====
-- ReadResponse of internal/fetch/response_store.go.
use tls_fetch_mcp.Common.{arith, pos, two_63, wrap64, ℤ, ◌+ℤ◌, ◌<ℤ◌}
use tls_fetch_mcp.Text.{Bytes}
use tls_fetch_mcp.Clock.{Time}
use tls_fetch_mcp.Errors.{Calm, Calm-bind}
use tls_fetch_mcp.Fetcher.{Fetcher, StoredResponse}
use tls_fetch_mcp.Response.{response}
use tls_fetch_mcp.Response.Search.Ends.{response-Calm}
use tls_fetch_mcp.Response.Read.{
  ReadInput, requested_bytes, end_of, slice_bytes, read_range, read_record, read_response,
}

-- A range whose end does not wrap around is within the body.
read_range-Calm :
    (most offset asked : ℤ) (body : Bytes)
    → offset +ℤ most <ℤ pos two_63
    → Calm (read_range most offset asked body)
unfolding read_range requested_bytes end_of slice_bytes wrap64
read_range-Calm most offset asked body h = ground arith

read_record-Calm :
    (format_time : Time → Bytes) (most : ℤ) (input : ReadInput) (r : StoredResponse)
    → input.offset +ℤ most <ℤ pos two_63
    → Calm (read_record format_time most input r)
unfolding read_record
read_record-Calm format_time most input r h =
    Calm-bind (read_range most input.offset input.max_bytes r.body) _
      (read_range-Calm most input.offset input.max_bytes r.body h) (λ x. tt)

-- A read does not panic if the offset and the server's limit together fit an `int64`.
pub read_response-Calm :
    {Jar : Type 0} (format_time : Time → Bytes) (now : Time) (input : ReadInput) (f : Fetcher Jar)
    → input.offset +ℤ f.config.max_read_bytes <ℤ pos two_63
    → Calm (read_response format_time now input f).1
unfolding read_response
read_response-Calm format_time now input f h =
    Calm-bind (response now input.response_id f).1 _ (response-Calm now input.response_id f)
      (λ r. read_record-Calm format_time f.config.max_read_bytes input r h)
