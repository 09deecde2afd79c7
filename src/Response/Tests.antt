-- ===== src/Response/Tests.antt =====
-- Stored responses at a table of two, reads and searches of a short body, and the theorems there.
use tls_fetch_mcp.Common.{
  Option, [], arith, false, length, ltb, none, pos, refl, slice, some, suc, take, true, ℕ, ◌*◌, ◌+◌,
  ◌∷◌, ◌≡◌, ◌≤◌,
}
use tls_fetch_mcp.Text.{Bytes, ascii, eq_bytes, has_prefix}
use tls_fetch_mcp.Text.Find.{index}
use tls_fetch_mcp.Text.Utf8.{valid}
use tls_fetch_mcp.Clock.{Time, deadline}
use tls_fetch_mcp.Table.{lookup, insert, delete}
use tls_fetch_mcp.Table.Expiry.{live}
use tls_fetch_mcp.Encoding.{encode_hex, AreBytes}
use tls_fetch_mcp.Errors.{Result, ok, err, response_not_found, panic}
use tls_fetch_mcp.Config.{Config}
use tls_fetch_mcp.Fetcher.{Fetcher, StoredResponse}
use tls_fetch_mcp.Response.{
  Metadata, purge_expired_responses, new_response_id, oldest_from, store_response, response,
  new_record,
}
use tls_fetch_mcp.Response.Valid.{IsValid}
use tls_fetch_mcp.Response.Live.{handle, Stored, store_response-Stored}
use tls_fetch_mcp.Response.Read.{requested_bytes, read_range}
use tls_fetch_mcp.Response.Read.Range.{read_range_panics}
use tls_fetch_mcp.Response.Read.Chunks.{read_all_from, read_all_from-body}
use tls_fetch_mcp.Response.Search.{SearchInput, SearchOutput, search_limits, search_record}
use tls_fetch_mcp.Response.Search.Complete.{Found, search_record-Found}
use tls_fetch_mcp.Response.Search.Scan.{scan}
use tls_fetch_mcp.Response.Search.Occurrences.{occurrences, scan-occurrences}
use tls_fetch_mcp.Response.Search.Window.{valid_utf8_window}
use tls_fetch_mcp.Response.Search.Window.Widens.{valid_utf8_window-valid}

program : Unit {0}
unfolding eq_bytes has_prefix encode_hex live deadline lookup insert delete purge_expired_responses
    new_response_id oldest_from store_response response requested_bytes read_range index valid scan
    occurrences search_limits search_record valid_utf8_window
program = tt

abbrev config : Config
config = record {
  allow_private = false;
  allow_proxy = false;
  allowed_hosts = [];
  max_response_bytes = pos 1024;
  default_timeout_seconds = pos 30;
  max_timeout = pos 120;
  max_sessions = pos 2;
  session_ttl = pos 60;
  max_responses = pos 2;
  response_ttl = pos 60;
  max_read_bytes = pos 1024;
}

abbrev metadata : Metadata
metadata = record {
  body_encoding = ascii "utf-8";
  content_type = ascii "text/plain";
  final_url = ascii "https://example.com/";
  truncated = false;
}

-- Sixteen random bytes.
abbrev random_bytes : ℕ → Bytes
random_bytes n = n ∷ 1 ∷ 2 ∷ 3 ∷ 4 ∷ 5 ∷ 6 ∷ 7 ∷ 8 ∷ 9 ∷ 10 ∷ 11 ∷ 12 ∷ 13 ∷ 14 ∷ 15 ∷ []

abbrev stored : ℕ → Bytes → StoredResponse
stored second body = record {
  body = body;
  body_encoding = ascii "utf-8";
  content_type = ascii "text/plain";
  final_url = ascii "https://example.com/";
  truncated = false;
  created_at = pos (second * 1000000000);
  expires_at = pos ((second + 60) * 1000000000);
}

abbrev full : Fetcher ℕ
full = record {
  config = config;
  policy = record { allow_private = false; allowed_hosts = [] };
  sessions = [];
  responses =
      (handle (random_bytes 0), stored 5 (ascii "first"))
      ∷ (handle (random_bytes 1), stored 0 (ascii "second"))
      ∷ [];
}

abbrev now : Time
now = pos 10000000000

full-IsValid : IsValid full
unfolding program
full-IsValid = record {
  distinct = (refl, (refl, tt));
  names = (refl, (refl, tt));
  bounded = omega arith;
  room = omega arith;
}

abbrev result_after : Option (Fetcher ℕ × Result Bytes) → Bytes → Result StoredResponse
result_after none id = err panic
result_after (some (g, r)) id = (response now id g).1

-- A third response drives out the older of the two, which stands last.
evicts :
    (result_after
        (store_response (some (random_bytes 2)) now (ascii "third") metadata full)
        (handle (random_bytes 0))
      ≡ ok (stored 5 (ascii "first")))
    × (result_after
          (store_response (some (random_bytes 2)) now (ascii "third") metadata full)
          (handle (random_bytes 1))
        ≡ err response_not_found)
    × (result_after
          (store_response (some (random_bytes 2)) now (ascii "third") metadata full)
          (handle (random_bytes 2))
        ≡ ok (stored 10 (ascii "third")))
unfolding program
evicts = (refl, refl, refl)

store_response-Stored_example :
    (g : Fetcher ℕ) × (store_response (some (random_bytes 2)) now (ascii "third") metadata full
      ≡ some (g, ok (handle (random_bytes 2))))
    × Stored now
        (handle (random_bytes 2))
        (new_record now full.config.response_ttl (ascii "third") metadata)
        full
        g
store_response-Stored_example =
    store_response-Stored (random_bytes 2) now (ascii "third") metadata full full-IsValid refl

abbrev text : Bytes
text = ascii "abcab"

read_range_panics_example :
    read_range (pos 9223372036854775807) (pos 1) (pos 9223372036854775807) text ≡ err panic
unfolding program
read_range_panics_example =
    read_range_panics (pos 9223372036854775807) (pos 9223372036854775807) text 1 9223372036854775807
      (omega arith) refl (omega arith) (omega arith) (omega arith) (omega arith)

abbrev text-AreBytes : AreBytes text
text-AreBytes = (omega arith, (omega arith, (omega arith, (omega arith, (omega arith, tt)))))

read_all_from-body_example :
    read_all_from (λ (time : Time). []) (pos 1024) (pos 2) [] (stored 0 text) 6 0 ≡ some text
unfolding program
read_all_from-body_example =
    read_all_from-body (λ time. []) (pos 1024) (pos 2) [] (stored 0 text) 2 (omega arith) refl
      (omega arith) (omega arith) text-AreBytes

scan-occurrences_example :
    scan text (ascii "ab") 1 (suc (length text)) 0 0
    ≡ some (
      take 1 (occurrences (ascii "ab") 0 0 text),
      ltb 1 (length (occurrences (ascii "ab") 0 0 text)),
    )
scan-occurrences_example = scan-occurrences text (ascii "ab") 1 (omega arith)

-- "é" is two bytes, 195 and 169; a window from its second byte starts at its first.
abbrev accented : Bytes
accented = 97 ∷ 195 ∷ 169 ∷ 98 ∷ []

accented-valid : valid accented ≡ true
unfolding program
accented-valid = refl

valid_utf8_window-valid_example :
    (s : ℕ) × (e : ℕ) × (valid_utf8_window accented 2 3 ≡ some (slice s e accented))
    × (s ≤ 2)
    × (3 ≤ e)
    × (e ≤ length accented)
    × (valid (slice s e accented) ≡ true)
valid_utf8_window-valid_example =
    valid_utf8_window-valid accented 2 3 accented-valid (omega arith) (omega arith)

abbrev ab_once : SearchInput
ab_once = record {
  response_id = [];
  query = ascii "AB";
  case_sensitive = false;
  max_matches = pos 1;
  context_bytes = pos 1;
}

ab_limits : search_limits ab_once text ≡ ok (1, 1)
unfolding program
ab_limits = refl

search_record-Found_example :
    (out : SearchOutput) × (search_record ab_once text ≡ some (ok out)) × Found ab_once text 1 out
search_record-Found_example = search_record-Found ab_once text 1 1 ab_limits
