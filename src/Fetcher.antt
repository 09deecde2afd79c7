-- ===== src/Fetcher.antt =====
-- The state of `Fetcher` (internal/fetch/fetch.go): the configuration, the policy, and the two tables
-- that its mutex guards. Each method locks it once for its whole work on the tables, so a method is
-- one step on this state; the clock's reading is an argument of the step.
use tls_fetch_mcp.Common.{Bool, []}
use tls_fetch_mcp.Text.{Bytes}
use tls_fetch_mcp.Clock.{Time}
use tls_fetch_mcp.Table.{Table}
use tls_fetch_mcp.Config.{Config, with_defaults}
use tls_fetch_mcp.Policy.{Policy, new_policy}

-- `sessionState`. A jar is a handle: the store of cookies behind it belongs to the HTTP client's
-- library.
pub record SessionState (Jar : Type 0) : Type 0 where
  pub jar : Jar
  pub created_at : Time
  pub last_used : Time
  pub expires_at : Time

pub record StoredResponse : Type 0 where
  pub body : Bytes
  pub body_encoding : Bytes
  pub content_type : Bytes
  pub final_url : Bytes
  pub truncated : Bool
  pub created_at : Time
  pub expires_at : Time

pub record Fetcher (Jar : Type 0) : Type 0 where
  pub config : Config
  pub policy : Policy
  pub sessions : Table (SessionState Jar)
  pub responses : Table StoredResponse

-- `New`.
unfoldable pub new_fetcher : {Jar : Type 0} → Config → Fetcher Jar
unfolding with_defaults new_policy
new_fetcher config = record {
  config = with_defaults config;
  policy = new_policy (with_defaults config);
  sessions = [];
  responses = [];
}
