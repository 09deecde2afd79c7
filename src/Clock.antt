-- ===== src/Clock.antt =====
-- Package `time`: an instant is a count of nanoseconds, and a `Duration` is an `int64` of them, so that
-- the product `time.Duration(seconds) * time.Second` may wrap around.
pub mod Tests
use tls_fetch_mcp.Common.{arith, pos, wrap64, ℕ, ℤ, ◌*ℤ◌, ◌*◌, ◌+ℤ◌, ◌<ℤ◌, ◌<◌, ◌≡◌, ◌≤◌}

abbrev pub Time : Type 0
Time = ℤ

abbrev pub second : ℤ
second = pos 1000000000

-- `time.Duration(n) * time.Second`.
unfoldable pub seconds : ℤ → ℤ
unfolding wrap64 ◌*ℤ◌
seconds n = wrap64 (n *ℤ second)

-- `now.Add(time.Duration(ttl) * time.Second)`.
unfoldable pub deadline : Time → ℤ → Time
unfolding ◌+ℤ◌ seconds
deadline now ttl = now +ℤ seconds ttl

-- The longest TTL that does not wrap around: about 292 years.
abbrev pub max_seconds : ℕ
max_seconds = 9223372036

pub seconds_exact : (n : ℕ) → n ≤ max_seconds → seconds (pos n) ≡ pos (n * 1000000000)
unfolding seconds
seconds_exact n h = ground arith

-- With a positive TTL up to that bound a deadline lies in the future.
pub deadline_later :
    (now : Time) (ttl : ℕ) → 0 < ttl → ttl ≤ max_seconds → now <ℤ deadline now (pos ttl)
unfolding deadline
deadline_later now ttl a b = ground (arith, seconds_exact ttl b)
