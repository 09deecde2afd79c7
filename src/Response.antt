-- ===== src/Response.antt =====
-- internal/fetch/response_store.go: the bounded table of response bodies behind temporary handles.
use tls_fetch_mcp.Common.{
  Bool, Option, [], false, if◌then◌else◌, leb_ℤ, length, ltb_ℤ, max, none, not, pos, some, suc,
  true, zero, ℕ, ℤ, ◌++◌, ◌==◌, ◌||◌, ◌∷◌,
}
pub mod Eviction
pub mod Valid
pub mod Live
pub mod Read
pub mod Search
pub mod Headers
pub mod Tests
use tls_fetch_mcp.Text.{Bytes, ascii, eq_bytes, has_prefix}
use tls_fetch_mcp.Encoding.{encode_hex}
use tls_fetch_mcp.Clock.{Time, deadline}
use tls_fetch_mcp.Table.{Table, lookup, insert, delete}
use tls_fetch_mcp.Table.Expiry.{purge}
use tls_fetch_mcp.Errors.{
  Result, ok, err, response_handle_failed, invalid_response_id, response_not_found, or_fail,
}
use tls_fetch_mcp.Fetcher.{Fetcher, StoredResponse}

-- `storedResponseMetadata`.
pub record Metadata : Type 0 where
  pub body_encoding : Bytes
  pub content_type : Bytes
  pub final_url : Bytes
  pub truncated : Bool

-- `newResponseID`, from the 16 bytes that `rand.Read` yields; `none` is its error.
unfoldable pub new_response_id : Option Bytes → Result Bytes
unfolding encode_hex
new_response_id none = err response_handle_failed
new_response_id (some value) = ok (ascii "resp_" ++ encode_hex value)

-- The loop of `evictOldestResponseLocked`, from the oldest entry found so far.
unfoldable pub oldest_from : Bytes → Time → Table StoredResponse → Bytes
unfolding eq_bytes
oldest_from oldest_id oldest [] = oldest_id
oldest_from oldest_id oldest ((id, record_) ∷ t) =
    let older = eq_bytes oldest_id [] || ltb_ℤ record_.created_at oldest in
    oldest_from (if older then id else oldest_id) (if older then record_.created_at else oldest) t

-- `evictOldestResponseLocked`.
unfoldable pub evict_oldest : Table StoredResponse → Table StoredResponse
evict_oldest t =
    let oldest_id = oldest_from [] (pos 0) t in
    if eq_bytes oldest_id [] then t else delete oldest_id t

-- `for len(f.responses) >= max { evict }`, with fuel for the rounds; `none` means that it ran out.
unfoldable pub evict_while_full : ℕ → ℤ → Table StoredResponse → Option (Table StoredResponse)
unfolding evict_oldest
evict_while_full zero max t = if leb_ℤ max (pos (length t)) then none else some t
evict_while_full (suc fuel) max t = elim (leb_ℤ max (pos (length t))) [
  | true ↦ evict_while_full fuel max (evict_oldest t)
  | false ↦ some t
]

-- The record that `storeResponse` builds.
abbrev pub new_record : Time → ℤ → Bytes → Metadata → StoredResponse
new_record now response_ttl body metadata = record {
  body = body;
  body_encoding = metadata.body_encoding;
  content_type = metadata.content_type;
  final_url = metadata.final_url;
  truncated = metadata.truncated;
  created_at = now;
  expires_at = deadline now response_ttl;
}

-- `!strings.HasPrefix(id, "resp_") || len(id) != 37`.
abbrev pub bad_id : Bytes → Bool
bad_id id = not (has_prefix id (ascii "resp_")) || not (length id == 37)

module _ {Jar : Type 0} where
  -- `purgeExpiredResponsesLocked`.
  unfoldable pub purge_expired_responses : Time → Fetcher Jar → Fetcher Jar
  unfolding purge
  purge_expired_responses now f = record f { responses = purge (λ r. r.expires_at) now f.responses }

  -- The last lines of `storeResponse`, behind the eviction.
  abbrev put_record :
      Bytes
      → StoredResponse
      → Fetcher Jar
      → Option (Table StoredResponse)
      → Option (Fetcher Jar × Result Bytes)
  put_record id record_ f none = none
  put_record id record_ f (some t) = some (record f { responses = insert id record_ t }, ok id)

  -- `storeResponse`; `none` would be a loop that does not end. As many rounds are allowed as there are
  -- entries.
  unfoldable pub store_response :
      Option Bytes → Time → Bytes → Metadata → Fetcher Jar → Option (Fetcher Jar × Result Bytes)
  unfolding evict_while_full
  store_response random now body metadata f = elim (new_response_id random) [
    | err e ↦ some (f, err e)
    | ok id ↦
        let f' = purge_expired_responses now f in
        put_record id (new_record now f.config.response_ttl body metadata) f'
          (evict_while_full (length f'.responses) f.config.max_responses f'.responses)
  ]

  -- `response`.
  unfoldable pub response : Time → Bytes → Fetcher Jar → Fetcher Jar × Result StoredResponse
  response now id f =
      if bad_id id
      then (f, err invalid_response_id)
      else let f' = purge_expired_responses now f in
        (f', or_fail (lookup id f'.responses) response_not_found)
