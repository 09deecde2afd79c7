-- ===== src/Table/Expiry.antt =====
-- Tables whose values expire: the loops of `purgeExpiredSessionsLocked` and
-- `purgeExpiredResponsesLocked`, and the table as it is seen at a time.
use tls_fetch_mcp.Common.{Bool, Option, arith, if◌then◌else◌, ltb_ℤ, none, refl, some, ◌≡◌, ◌≤ℤ◌}
use tls_fetch_mcp.Text.{Bytes, eq_bytes}
use tls_fetch_mcp.Clock.{Time}
use tls_fetch_mcp.Table.{Table, lookup, insert, delete, retain, Distinct}
use tls_fetch_mcp.Table.Laws.{lookup-insert, lookup-delete, lookup-retain, keep}

module _ {V : Type 0} (expires : V → Time) where
  -- `expires.After(now)`.
  abbrev pub fresh : Time → V → Bool
  fresh now v = ltb_ℤ now (expires v)

  unfoldable pub purge : Time → Table V → Table V
  unfolding retain
  purge now t = retain (fresh now) t

  -- What the table holds for a key at a time: an expired value counts as absent.
  unfoldable pub live : Time → Table V → Bytes → Option V
  unfolding lookup
  live now t k = keep (fresh now) (lookup k t)

  pub lookup-purge :
      (now : Time) (t : Table V) (k : Bytes) → Distinct t → lookup k (purge now t) ≡ live now t k
  unfolding purge live
  lookup-purge now t k d = lookup-retain (fresh now) k t d

  keep_later :
      (now later : Time) (o : Option V)
      → now ≤ℤ later
      → keep (fresh later) (keep (fresh now) o) ≡ keep (fresh later) o
  keep_later now later none h = refl
  keep_later now later (some v) h = ground arith

  -- A purge changes nothing that can be seen from its time on.
  pub live-purge :
      (now later : Time) (t : Table V) (k : Bytes)
      → Distinct t
      → now ≤ℤ later
      → live later (purge now t) k ≡ live later t k
  unfolding purge live
  live-purge now later t k d h =
      rw (lookup-retain (fresh now) k t d) (keep_later now later (lookup k t) h)

  pub live-insert :
      (now : Time) (k j : Bytes) (v : V) (t : Table V)
      → live now (insert k v t) j
        ≡ (if eq_bytes j k then keep (fresh now) (some v) else live now t j)
  unfolding live
  live-insert now k j v t = rw (lookup-insert k j v t) (ground arith)

  pub live-delete :
      (now : Time) (k j : Bytes) (t : Table V)
      → live now (delete k t) j ≡ (if eq_bytes j k then none else live now t j)
  unfolding live
  live-delete now k j t = rw (lookup-delete k j t) (ground arith)
