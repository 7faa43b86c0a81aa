-- ===== src/Client/Retry/Pool.antt =====
-- src/splunk_client.cpp: the cached connection, which GetConnection makes and a transport error
-- resets, over the attempts of a request.
pub mod Fresh
use duckdb_splunk.Prelude.{ℕ, zero, suc, ◌+◌, Option, none, some, List, [], ◌∷◌}
use duckdb_splunk.External.{StringUtil}
use duckdb_splunk.Client.Connection.{SplunkClient, Connection, get_connection}
use duckdb_splunk.Client.Retry.{TransportError, Response, Reply, no_response, response, Network}

-- The cache, and how many connections have been made.
pub record Pool : Type 0 where
  pub connection : Option Connection
  pub made : ℕ

abbrev pub unconnected : Pool
unconnected = record { connection = none; made = 0 }

-- `connection.reset()` where there is no response.
unfoldable pub after_reply : Reply → Pool → Pool
after_reply (no_response e) p = record p { connection = none }
after_reply (response r) p = p

module _ (su : StringUtil) (client : SplunkClient) where
  made_by : Option Connection → ℕ → ℕ
  made_by (some c) n = n
  made_by none n = n + 1

  -- `GetConnection`, with the cache that it leaves.
  unfoldable pub acquire : Pool → Connection × Pool
  unfolding made_by
  acquire p =
      let c = get_connection su client p.connection in
      (c, record { connection = some c; made = made_by p.connection p.made })

  -- The connections over which the attempts with these replies go, and the cache behind them.
  unfoldable pub connections : List Reply → Pool → List Connection × Pool
  connections [] p = ([], p)
  connections (reply ∷ replies) p =
      let got = acquire p in
      let rest = connections replies (after_reply reply got.1) in (got.0 ∷ rest.0, rest.1)
