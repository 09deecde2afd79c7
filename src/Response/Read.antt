-- ===== src/Response/Read.antt =====
-- `ReadResponse`: a range of a stored body.
use tls_fetch_mcp.Common.{
  Bool, if◌then◌else◌, is_zero, leb_ℤ, length, ltb_ℤ, pos, pos_part, slice, wrap64, ℤ, ◌&&◌, ◌*◌,
  ◌+ℤ◌, ◌||◌,
}
pub mod Range
pub mod Chunks
use tls_fetch_mcp.Text.{Bytes}
use tls_fetch_mcp.Encoding.{encode_body}
use tls_fetch_mcp.Clock.{Time}
use tls_fetch_mcp.Errors.{Result, ok, err, ◌>>=◌, ◌>>◌, fail_if, bad_offset, bad_max_bytes, panic}
use tls_fetch_mcp.Fetcher.{Fetcher, StoredResponse}
use tls_fetch_mcp.Response.{response}

abbrev pub default_response_read_bytes : ℤ
default_response_read_bytes = pos (64 * 1024)

-- `ResponseReadInput`.
pub record ReadInput : Type 0 where
  pub response_id : Bytes
  pub offset : ℤ
  pub max_bytes : ℤ

-- `ResponseReadOutput`. The times are formatted by the argument `format_time`.
pub record ReadOutput : Type 0 where
  pub response_id : Bytes
  pub offset : ℤ
  pub next_offset : ℤ
  pub total_bytes : ℤ
  pub body : Bytes
  pub body_encoding : Bytes
  pub eof : Bool
  pub content_type : Bytes
  pub final_url : Bytes
  pub truncated : Bool
  pub created_at : Bytes
  pub expires_at : Bytes

-- The number of bytes asked for, or the default within the server's limit.
unfoldable pub requested_bytes : ℤ → ℤ → ℤ
requested_bytes max_read_bytes max_bytes =
    if is_zero max_bytes
    then (if ltb_ℤ max_read_bytes default_response_read_bytes
        then max_read_bytes
        else default_response_read_bytes)
    else max_bytes

-- `input.Offset + maxBytes`, an `int64`, cut to the length of the body.
unfoldable pub end_of : Bytes → ℤ → ℤ → ℤ
unfolding wrap64 ◌+ℤ◌
end_of body offset max_bytes =
    let end = wrap64 (offset +ℤ max_bytes) in
    if ltb_ℤ (pos (length body)) end then pos (length body) else end

-- `body[lo:hi]`: a run-time panic unless 0 ≤ lo ≤ hi ≤ len(body).
unfoldable pub slice_bytes : Bytes → ℤ → ℤ → Result Bytes
slice_bytes body lo hi =
    if ltb_ℤ lo (pos 0) || ltb_ℤ hi lo || ltb_ℤ (pos (length body)) hi
    then err panic
    else ok (slice (pos_part lo) (pos_part hi) body)

-- The checks of `ReadResponse` and the range that it takes: where the range ends, and its bytes.
unfoldable pub read_range : ℤ → ℤ → ℤ → Bytes → Result (ℤ × Bytes)
read_range max_read_bytes offset asked body = do
  fail_if (ltb_ℤ offset (pos 0) || ltb_ℤ (pos (length body)) offset) (bad_offset (length body))
  let max_bytes = requested_bytes max_read_bytes asked
  fail_if (ltb_ℤ max_bytes (pos 0) || ltb_ℤ max_read_bytes max_bytes) (bad_max_bytes max_read_bytes)
  let end = end_of body offset max_bytes
  part ← slice_bytes body offset end
  ok (end, part)

module _ (format_time : Time → Bytes) where
  abbrev read_output : ReadInput → StoredResponse → ℤ → Bytes × Bytes → ReadOutput
  read_output input record_ end (body, encoding) = record {
    response_id = input.response_id;
    offset = input.offset;
    next_offset = end;
    total_bytes = pos (length record_.body);
    body = body;
    body_encoding = encoding;
    eof = leb_ℤ end (pos (length record_.body)) && leb_ℤ (pos (length record_.body)) end;
    content_type = record_.content_type;
    final_url = record_.final_url;
    truncated = record_.truncated;
    created_at = format_time record_.created_at;
    expires_at = format_time record_.expires_at;
  }

  -- The part of `ReadResponse` behind the look-up.
  unfoldable pub read_record : ℤ → ReadInput → StoredResponse → Result ReadOutput
  read_record max_read_bytes input record_ = do
    (end, part) ← read_range max_read_bytes input.offset input.max_bytes record_.body
    ok (read_output input record_ end (encode_body part))

  -- `ReadResponse`.
  unfoldable pub read_response :
      {Jar : Type 0} → Time → ReadInput → Fetcher Jar → Fetcher Jar × Result ReadOutput
  unfolding read_record
  read_response now input f =
      let (g, found) = response now input.response_id f in
      (g, found >>= read_record f.config.max_read_bytes input)
