-- ===== src/Response/Read/Chunks.antt =====
-- A client that reads chunk by chunk, each from where the last one ended, until `eof`.
use tls_fetch_mcp.Common.{
  All-drop, All-take, Bool-cases, Option, ap, arith, drop, false, inl, inr, leb, leb_ℤ, leb→le,
  length, min, none, pos, pos_part, refl, slice, slice-append-drop, slice_to_end, some, suc, true,
  two_63, zero, ℕ, ℤ, ◌&&◌, ◌++◌, ◌+◌, ◌-◌, ◌<◌, ◌∙◌, ◌≡◌, ◌≤ℤ◌, ◌≤◌,
}
use tls_fetch_mcp.Text.{Bytes}
use tls_fetch_mcp.Encoding.{encode_body, decode_body, AreBytes, encode_body-Encodes}
use tls_fetch_mcp.Clock.{Time}
use tls_fetch_mcp.Errors.{ok, err}
use tls_fetch_mcp.Fetcher.{StoredResponse}
use tls_fetch_mcp.Response.Read.{ReadInput, ReadOutput, read_output, requested_bytes, read_record}
use tls_fetch_mcp.Response.Read.Range.{read_range-slice}

module _ (format_time : Time → Bytes) (max_read_bytes asked : ℤ) (id : Bytes)
    (r : StoredResponse) where
  abbrev input_at : ℕ → ReadInput
  input_at o = record { response_id = id; offset = pos o; max_bytes = asked }

  -- One more chunk in front of the rest.
  abbrev prepend : Bytes → Option Bytes → Option Bytes
  prepend s none = none
  prepend s (some t) = some (s ++ t)

  abbrev decoded : ReadOutput → Bytes
  decoded out = decode_body (out.body, out.body_encoding)

  -- The client's loop, with fuel for the rounds; `none` is an error or a lack of fuel.
  pub read_all_from : ℕ → ℕ → Option Bytes
  read_all_from zero o = none
  read_all_from (suc fuel) o = elim (read_record format_time max_read_bytes (input_at o) r) [
    | err e ↦ none
    | ok out ↦ elim out.eof [
      | true ↦ some (decoded out)
      | false ↦ prepend (decoded out) (read_all_from fuel (pos_part out.next_offset))
    ]
  ]

  module _ (m : ℕ) (positive : 0 < m) (request : requested_bytes max_read_bytes asked ≡ pos m)
      (allowed : pos m ≤ℤ max_read_bytes) (fits : length r.body + m < two_63)
      (bytes : AreBytes r.body) where
    record_at :
        (o : ℕ)
        → o ≤ length r.body
        → read_record format_time max_read_bytes (input_at o) r
          ≡ ok (
              read_output format_time
                (input_at o)
                r
                (pos (min (o + m) (length r.body)))
                (encode_body (slice o (min (o + m) (length r.body)) r.body)))
    unfolding read_record
    record_at o h =
        rw (read_range-slice max_read_bytes asked r.body o m h request allowed (omega arith)) refl

    abbrev stop : ℕ → ℕ
    stop o = min (o + m) (length r.body)

    eof_true :
        (o : ℕ)
        → leb (length r.body) (stop o) ≡ true
        → (leb_ℤ (pos (stop o)) (pos (length r.body)) && leb_ℤ (pos (length r.body)) (pos (stop o)))
          ≡ true
    eof_true o h = ground arith

    eof_false :
        (o : ℕ)
        → leb (length r.body) (stop o) ≡ false
        → (leb_ℤ (pos (stop o)) (pos (length r.body)) && leb_ℤ (pos (length r.body)) (pos (stop o)))
          ≡ false
    eof_false o h = ground arith

    chunk : (o : ℕ) → decode_body (encode_body (slice o (stop o) r.body)) ≡ slice o (stop o) r.body
    chunk o =
        (encode_body-Encodes (slice o (stop o) r.body)
          (All-take _ (stop o - o) (drop o r.body) (All-drop _ o r.body bytes))).1

    -- With more rounds than there are bytes left, the decoded chunks add up to the bytes left.
    read_all_from-drop :
        (fuel o : ℕ)
        → length r.body < o + fuel
        → o ≤ length r.body
        → read_all_from fuel o ≡ some (drop o r.body)
    unfolding read_all_from
    read_all_from-drop zero o enough h = absurd (omega arith)
    read_all_from-drop (suc fuel) o enough h =
        elim (Bool-cases (leb (length r.body) (min (o + m) (length r.body)))) [
          | inl last ↦
              rw (record_at o h, read_all_from)
                (rw (eof_true o last) (
                  ap some (
                    chunk o
                    ∙ slice_to_end o (min (o + m) (length r.body)) r.body (leb→le _ _ last))))
          | inr more ↦
              rw (record_at o h, read_all_from)
                (rw (eof_false o more) (
                  rw
                    (read_all_from-drop fuel (min (o + m) (length r.body)) (ground arith)
                      (omega arith))
                    (rw (chunk o) (
                      ap some
                        (slice-append-drop o (min (o + m) (length r.body)) r.body (omega arith))))))
        ]

    -- Reading a stored response from its start, each chunk from where the last one ended until `eof`,
    -- and decoding each by its encoding, ends and gives the whole body, whatever the size of the
    -- chunks: a positive number of bytes that the server permits and that, added to the length of the
    -- body, fits an `int64`.
    pub read_all_from-body : read_all_from (suc (length r.body)) 0 ≡ some r.body
    read_all_from-body = read_all_from-drop (suc (length r.body)) 0 (omega arith) (omega arith)
