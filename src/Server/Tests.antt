-- ===== src/Server/Tests.antt =====
-- A server started with one name set in its environment, and some calls of its tools.
use tls_fetch_mcp.Common.{
  +ℤ_parts, All, List, [], ap, arith, false, pos, refl, some, true, ℕ, ◌∷◌, ◌≡◌, ◌⊎◌,
}
use tls_fetch_mcp.Text.{ascii, eq_bytes, has_prefix}
use tls_fetch_mcp.Text.Case.{ascii_only}
use tls_fetch_mcp.Text.Order.{sort_strings}
use tls_fetch_mcp.Response.Read.{
  ReadInput, read_response, read_range, slice_bytes, requested_bytes, end_of,
}
use tls_fetch_mcp.Response.{response, purge_expired_responses}
use tls_fetch_mcp.Table.{lookup}
use tls_fetch_mcp.Errors.{ok, ◌>>=◌}
use tls_fetch_mcp.Config.Bounds.{IsValid}
use tls_fetch_mcp.Config.{with_defaults}
use tls_fetch_mcp.Config.Tests.{read_60, max_timeout_60, reads_60}
use tls_fetch_mcp.Fetcher.{Fetcher, new_fetcher}
use tls_fetch_mcp.Request.Send.Tests.{world, empty}
use tls_fetch_mcp.Extract.Tests.{parsers}
use tls_fetch_mcp.Server.{
  Request, call_profiles, call_session_info, call_response_read, profiles, returns, stopped,
  Outside, profile_names, handle, serve, start,
}
use tls_fetch_mcp.Server.Sound.{AllEnd, Fits, start-AllEnd}
use tls_fetch_mcp.Server.Harmless.{StaysInside, OnlyReads, handle-OnlyReads}

program : Unit {0}
unfolding handle profile_names sort_strings
program = tt

abbrev outside : Outside ℕ ℕ
outside = record {
  world = world;
  parsers = parsers;
  now = pos 5;
  format_time = λ time. [];
  profile_keys = ascii "safari" ∷ ascii "chrome" ∷ [];
}

-- The names of the profiles are sorted.
lists_profiles :
    handle outside call_profiles empty
    ≡ some (
      empty,
      returns (
          profiles (record {
            default = ascii "chrome_146";
            profiles = ascii "chrome" ∷ ascii "safari" ∷ [];
          })),
    )
unfolding program
lists_profiles = refl

abbrev fresh : Fetcher ℕ
fresh = new_fetcher read_60

starts : start ascii_only max_timeout_60 ≡ ok fresh
unfolding start
starts = ap (λ r. r >>= (λ config. ok (new_fetcher config))) reads_60

abbrev calls : List (Outside ℕ ℕ × Request)
calls =
    (outside, call_session_info (ascii "shop"))
    ∷ (outside, call_profiles)
    ∷ (
      outside,
      call_response_read
          (record { response_id = ascii "resp_"; offset = pos 0; max_bytes = pos 0 }),
    )
    ∷ []

fits : All (λ call. Fits fresh.config call.1) calls
unfolding new_fetcher with_defaults
fits = (tt, (tt, (omega (arith, +ℤ_parts (pos 0) (pos 131072)), tt)))

start-AllEnd_example : IsValid fresh.config × AllEnd fresh.config 3 (serve calls fresh)
start-AllEnd_example = start-AllEnd ascii_only max_timeout_60 fresh calls starts fits

handle-OnlyReads_example :
    StaysInside outside fresh (handle outside (call_session_info (ascii "shop")) fresh)
    ⊎ ((some false ≡ some true)
        × OnlyReads outside fresh (handle outside (call_session_info (ascii "shop")) fresh))
handle-OnlyReads_example = handle-OnlyReads outside (call_session_info (ascii "shop")) fresh refl

-- The greatest limit for reads, and a stored body of one byte.
abbrev wide : Fetcher ℕ
wide = record empty {
  config = record empty.config { max_read_bytes = pos 9223372036854775807 };
  responses =
      (
        ascii "resp_00000000000000000000000000000000",
        record {
          body = ascii "a";
          body_encoding = ascii "utf-8";
          content_type = [];
          final_url = [];
          truncated = false;
          created_at = pos 0;
          expires_at = pos 60;
        },
      )
      ∷ [];
}

abbrev last_bytes : ReadInput
last_bytes = record {
  response_id = ascii "resp_00000000000000000000000000000000";
  offset = pos 1;
  max_bytes = pos 9223372036854775807;
}

-- The read panics, and the call behind it gets no answer.
stops :
    serve
      ((outside, call_profiles)
        ∷ (outside, call_response_read last_bytes)
        ∷ (outside, call_profiles)
        ∷ [])
      wide
    ≡ stopped (
        profiles
          (record { default = ascii "chrome_146"; profiles = ascii "chrome" ∷ ascii "safari" ∷ [] })
        ∷ [])
unfolding program serve read_response response purge_expired_responses lookup has_prefix read_range
    slice_bytes eq_bytes requested_bytes end_of
stops = refl
