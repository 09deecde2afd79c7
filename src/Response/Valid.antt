-- ===== src/Response/Valid.antt =====
-- The invariant of the response table of internal/fetch/response_store.go.
use tls_fetch_mcp.Common.{
  Bool-cases, Option, arith, false, inl, inr, length, ltb_ℤ, none, pos, refl, some, ◌+◌, ◌<ℤ◌, ◌≡◌,
  ◌≤ℤ◌, ◌⊎◌,
}
use tls_fetch_mcp.Text.{Bytes, eq_bytes, has_prefix}
use tls_fetch_mcp.Encoding.{length-encode_hex}
use tls_fetch_mcp.Clock.{Time}
use tls_fetch_mcp.Table.{Table, insert, Distinct}
use tls_fetch_mcp.Table.Expiry.{purge}
use tls_fetch_mcp.Table.Laws.{
  AllKeys, retain-Distinct, insert-Distinct, length-retain-le, length-insert-le, retain-AllKeys,
  insert-AllKeys,
}
use tls_fetch_mcp.Errors.{Result, ok, err, Result-cases}
use tls_fetch_mcp.Fetcher.{Fetcher, StoredResponse}
use tls_fetch_mcp.Response.{
  Metadata, new_response_id, new_record, purge_expired_responses, store_response, bad_id, response,
}
use tls_fetch_mcp.Response.Eviction.{IsNamed, Evicted, evict_while_full_lem}

-- No identifier twice, none empty, and no more responses than the configuration admits.
pub record IsValid {Jar : Type 0} (f : Fetcher Jar) : Type 0 where
  pub distinct : Distinct f.responses
  pub names : AllKeys IsNamed f.responses
  pub bounded : pos (length f.responses) ≤ℤ f.config.max_responses
  pub room : pos 0 <ℤ f.config.max_responses

abbrev pub expires : StoredResponse → Time
expires r = r.expires_at

pub new_response_id-IsNamed :
    (random : Option Bytes) {id : Bytes} → new_response_id random ≡ ok id → IsNamed id
unfolding new_response_id eq_bytes
new_response_id-IsNamed none e = cc
new_response_id-IsNamed (some value) {id} e = ground arith

-- An identifier made of 16 random bytes is one that `response` looks up.
pub new_response_id-good :
    (value : Bytes) {id : Bytes}
    → length value ≡ 16
    → new_response_id (some value) ≡ ok id
    → bad_id id ≡ false
unfolding new_response_id has_prefix
new_response_id-good value {id} n e = ground (arith, length-encode_hex value)

module _ {Jar : Type 0} where
  pub purge-IsValid :
      (now : Time) (f : Fetcher Jar) → IsValid f → IsValid (purge_expired_responses now f)
  unfolding purge_expired_responses
  purge-IsValid now f v = record {
    distinct = retain-Distinct _ f.responses v.distinct;
    names = retain-AllKeys IsNamed _ f.responses v.names;
    bounded = omega (arith, length-retain-le (λ r. ltb_ℤ now r.expires_at) f.responses, v.bounded);
    room = v.room;
  }

  -- `response` keeps the invariant of the table, whether it refuses the identifier or purges.
  pub response-IsValid :
      (now : Time) (id : Bytes) (f : Fetcher Jar) → IsValid f → IsValid (response now id f).0
  unfolding response
  response-IsValid now id f v = elim (Bool-cases (bad_id id)) [
    | inl bad ↦ rw (bad, response) v
    | inr good ↦ rw (good, response) (purge-IsValid now f v)
  ]

  -- What `storeResponse` does once it has an identifier: the expired entries go, then as many of the
  -- oldest as needed, and the record is written.
  pub store_response_lem :
      (random : Option Bytes) (now : Time) (body : Bytes) (metadata : Metadata) (f : Fetcher Jar)
      {id : Bytes}
      → new_response_id random ≡ ok id
      → IsValid f
      → (kept : Table StoredResponse) × (store_response random now body metadata f
          ≡ some (
            record f {
              responses = insert id (new_record now f.config.response_ttl body metadata) kept;
            },
            ok id,
          ))
        × (pos (length kept) <ℤ f.config.max_responses)
        × ((kept ≡ purge expires now f.responses)
            ⊎ ((pos (length kept + 1) ≡ f.config.max_responses)
                × (f.config.max_responses ≤ℤ pos (length (purge expires now f.responses)))))
        × Evicted (purge expires now f.responses) kept
  unfolding store_response purge_expired_responses
  store_response_lem random now body metadata f {id} e v =
      let t = purge expires now f.responses in
      let (kept, q, fits, how, gone) =
        evict_while_full_lem (length t) f.config.max_responses t (omega arith) v.room
          (retain-AllKeys IsNamed _ f.responses v.names)
          (retain-Distinct _ f.responses v.distinct) in
      (
        kept,
        rw (e, store_response, purge_expired_responses) (rw (q, purge_expired_responses) refl),
        fits,
        how,
        gone,
      )

  -- From a state that satisfies the invariant `storeResponse` ends, whether or not `rand.Read` fails, and
  -- keeps the invariant: the number of stored responses never exceeds the limit.
  pub store_response-IsValid :
      (random : Option Bytes) (now : Time) (body : Bytes) (metadata : Metadata) (f : Fetcher Jar)
      → IsValid f
      → (g : Fetcher Jar) × (r : Result Bytes) × (store_response random now body metadata f
          ≡ some (g, r))
        × IsValid g
  unfolding store_response
  store_response-IsValid random now body metadata f v =
      elim (Result-cases (new_response_id random)) [
        | inr (x, e) ↦ (f, err x, rw (e, store_response), v)
        | inl (id, e) ↦
            let (kept, q, fits, how, gone) = store_response_lem random now body metadata f e v in
            let r = new_record now f.config.response_ttl body metadata in
            (
              record f { responses = insert id r kept },
              ok id,
              q,
              record {
                distinct = insert-Distinct id r kept gone.distinct;
                names =
                    insert-AllKeys IsNamed id r kept (new_response_id-IsNamed random e) gone.names;
                bounded = omega (arith, length-insert-le id r kept, fits);
                room = v.room;
              },
            )
      ]
