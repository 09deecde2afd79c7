-- ===== src/Response/Live.antt =====
-- storeResponse and response of internal/fetch/response_store.go, as a client sees them.
use tls_fetch_mcp.Common.{
  Option, ap, arith, false, inl, inr, length, pos, refl, some, sym, ◌++◌, ◌+◌, ◌<ℤ◌, ◌∙◌, ◌≡◌, ◌≢◌,
  ◌≤ℤ◌, ◌⊎◌,
}
use tls_fetch_mcp.Text.{Bytes, ascii, eq_bytes_iff, eq_bytes_refl}
use tls_fetch_mcp.Encoding.{encode_hex}
use tls_fetch_mcp.Clock.{Time}
use tls_fetch_mcp.Table.{Table, lookup, insert, Distinct}
use tls_fetch_mcp.Table.Expiry.{purge, live, lookup-purge, live-insert}
use tls_fetch_mcp.Table.Laws.{lookup-insert, insert-Distinct}
use tls_fetch_mcp.Errors.{ok, or_fail, response_not_found}
use tls_fetch_mcp.Fetcher.{Fetcher, StoredResponse}
use tls_fetch_mcp.Response.{
  Metadata, new_response_id, new_record, purge_expired_responses, store_response, bad_id, response,
}
use tls_fetch_mcp.Response.Eviction.{Evicted}
use tls_fetch_mcp.Response.Valid.{IsValid, expires, store_response_lem, new_response_id-good}

-- The identifier made of the random bytes.
abbrev pub handle : Bytes → Bytes
handle value = ascii "resp_" ++ encode_hex value

module _ {Jar : Type 0} where
  -- The response that a client can read under an identifier at a time.
  abbrev pub seen : Fetcher Jar → Time → Bytes → Option StoredResponse
  seen f later id = live expires later f.responses id

  -- In a table without duplicates, `response` yields for a well-formed identifier what is seen under
  -- it at the time of the call, and the error "not found" if nothing is.
  pub response-seen :
      (now : Time) (id : Bytes) (f : Fetcher Jar)
      → Distinct f.responses
      → bad_id id ≡ false
      → (response now id f).1 ≡ or_fail (seen f now id) response_not_found
  unfolding response purge_expired_responses
  response-seen now id f d good =
      rw (good, response, purge_expired_responses)
        (ap (λ o. or_fail o response_not_found) (lookup-purge expires now f.responses id d))

  -- The table was full of unexpired responses.
  abbrev pub IsFull : Time → Fetcher Jar → Type 0
  IsFull now f = f.config.max_responses ≤ℤ pos (length (purge expires now f.responses))

  -- `g` is `f` with the record stored at the time `now`.
  pub record Stored (now : Time) (id : Bytes) (r : StoredResponse) (f g : Fetcher Jar)
      : Type 0 where
    -- Until the record expires, `response` yields it.
    pub readable : (later : Time) → later <ℤ r.expires_at → (response later id g).1 ≡ ok r
    -- Whatever else is there was seen before.
    pub others_old :
        (j : Bytes) (s : StoredResponse)
        → j ≢ id
        → lookup j g.responses ≡ some s
        → seen f now j ≡ some s
    -- Whatever was seen is still there, unless the table was full: then what is gone is not newer than
    -- anything that is left.
    pub oldest_gone :
        (j : Bytes) (s : StoredResponse)
        → j ≢ id
        → seen f now j ≡ some s
        → (lookup j g.responses ≡ some s)
          ⊎ (IsFull now f
              × ((i : Bytes) (q : StoredResponse)
                  → i ≢ id
                  → lookup i g.responses ≡ some q
                  → s.created_at ≤ℤ q.created_at))

  module _ (now : Time) (id : Bytes) (r : StoredResponse) (f : Fetcher Jar) (v : IsValid f)
      (good : bad_id id ≡ false) (kept : Table StoredResponse)
      (how : (kept ≡ purge expires now f.responses)
        ⊎ ((pos (length kept + 1) ≡ f.config.max_responses) × IsFull now f))
      (gone : Evicted (purge expires now f.responses) kept) where
    after : Fetcher Jar
    after = record f { responses = insert id r kept }

    found_old : (j : Bytes) → lookup j (purge expires now f.responses) ≡ seen f now j
    found_old j = lookup-purge expires now f.responses j v.distinct

    found_other : (j : Bytes) → j ≢ id → lookup j after.responses ≡ lookup j kept
    unfolding after
    found_other j ne = rw (lookup-insert id j r kept) (ground (arith, eq_bytes_iff j id))

    seen_new :
        (later : Time) → later <ℤ r.expires_at → live expires later (insert id r kept) id ≡ some r
    seen_new later h = rw (live-insert expires later id id r kept, eq_bytes_refl id) (ground arith)

    readable_after : (later : Time) → later <ℤ r.expires_at → (response later id after).1 ≡ ok r
    unfolding after
    readable_after later h =
        response-seen later id (record f { responses = insert id r kept })
          (insert-Distinct id r kept gone.distinct) good
        ∙ ap (λ o. or_fail o response_not_found) (seen_new later h)

    gone_after :
        (j : Bytes) (s : StoredResponse)
        → j ≢ id
        → seen f now j ≡ some s
        → (lookup j after.responses ≡ some s)
          ⊎ (IsFull now f
              × ((i : Bytes) (q : StoredResponse)
                  → i ≢ id
                  → lookup i after.responses ≡ some q
                  → s.created_at ≤ℤ q.created_at))
    gone_after j s ne e = elim (gone.oldest_gone j s (found_old j ∙ e)) [
      | inl here ↦ inl (found_other j ne ∙ here)
      | inr (lost, oldest) ↦ elim how [
        | inl same ↦ inl (found_other j ne ∙ (ap (lookup j) same ∙ (found_old j ∙ e)))
        | inr (left, full) ↦ inr (full, λ i q ne' m. oldest i q (sym (found_other i ne') ∙ m))
      ]
    ]

    Stored-after : Stored now id r f after
    Stored-after = record {
      readable = readable_after;
      others_old = λ j s ne e. sym (found_old j) ∙ gone.from_old j s (sym (found_other j ne) ∙ e);
      oldest_gone = gone_after;
    }

  -- Given 16 random bytes, `storeResponse` ends and returns the handle made of them. Until its deadline
  -- `response` yields the stored record under that handle; every other response that was unexpired is
  -- still there, unless the table was full, and then none that is gone is newer than any other that is
  -- left; nothing else appears. This needs the invariant of the table.
  pub store_response-Stored :
      (value : Bytes) (now : Time) (body : Bytes) (metadata : Metadata) (f : Fetcher Jar)
      → IsValid f
      → length value ≡ 16
      → (g : Fetcher Jar) × (store_response (some value) now body metadata f
          ≡ some (g, ok (handle value)))
        × Stored now (handle value) (new_record now f.config.response_ttl body metadata) f g
  unfolding new_response_id after
  store_response-Stored value now body metadata f v n =
      let r = new_record now f.config.response_ttl body metadata in
      let (kept, q, fits, how, gone) =
        store_response_lem (some value) now body metadata f {id = handle value} refl v in
      (
        record f { responses = insert (handle value) r kept },
        q,
        Stored-after now (handle value) r f v (new_response_id-good value n refl) kept how gone,
      )
