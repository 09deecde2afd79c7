-- ===== src/Clock/Tests.antt =====
-- Deadlines for a short TTL and for one that wraps around.
use tls_fetch_mcp.Common.{arith, negsuc, pos, refl, ◌<ℤ◌, ◌≡◌}
use tls_fetch_mcp.Clock.{deadline, deadline_later}

program : Unit {0}
unfolding deadline
program = tt

-- One second more than the longest: the deadline lies in the past.
wraps : deadline (pos 0) (pos 9223372037) ≡ negsuc 9223372036709551615
unfolding program
wraps = refl

five_minutes : pos 5 <ℤ deadline (pos 5) (pos 300)
five_minutes = deadline_later (pos 5) 300 (omega arith) (omega arith)
