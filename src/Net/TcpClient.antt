-- ===== src/Net/TcpClient.antt =====
-- src/net/TcpClient.h and src/net/TcpClient.cc, as called in the loop's thread. A connection is the
-- number that its name ends in; `none` is an assertion that fails.
pub mod Again
use libcpp.Prelude.{
  ℕ, ◌+◌, Bool, true, false, ◌&&◌, Option, none, some, ◌==◌, if◌then◌else◌, ◌>>=◌, ◌>>◌, assert,
}
use libcpp.Net.Connector.{Connector, start, restart}
use libcpp.Net.Connector as Connector

pub record TcpClient : Type 0 where
  pub connector : Connector
  pub retry : Bool
  pub connect_flag : Bool
  pub next_conn_id : ℕ
  pub connection : Option ℕ

-- The constructor.
abbrev pub init : TcpClient
init = record {
  connector = Connector.init;
  retry = false;
  connect_flag = true;
  next_conn_id = 1;
  connection = none;
}

abbrev pub enable_retry : TcpClient → TcpClient
enable_retry c = record c { retry = true }

-- `sockfd` and `errno` are what the connector's next attempt gives.
unfoldable pub connect : ℕ → ℕ → TcpClient → Option TcpClient
connect sockfd errno c = do
  connector ← start sockfd errno c.connector
  some (record c { connect_flag = true; connector = connector })

-- With the connection that is shut down, if any.
unfoldable pub disconnect : TcpClient → Option ℕ × TcpClient
disconnect c = (c.connection, record c { connect_flag = false })

unfoldable pub stop : Bool → TcpClient → TcpClient
stop cancelled c = record c {
  connect_flag = false;
  connector = Connector.stop cancelled c.connector;
}

-- The callback of the connector; the connection is then established.
unfoldable pub new_connection : TcpClient → TcpClient
new_connection c = record c { next_conn_id = c.next_conn_id + 1; connection = some c.next_conn_id }

abbrev pub is_connection : ℕ → Option ℕ → Bool
is_connection conn none = false
is_connection conn (some other) = other == conn

-- The close callback of connection `conn`, which is destroyed later.
unfoldable pub remove_connection : ℕ → ℕ → ℕ → TcpClient → Option TcpClient
remove_connection conn sockfd errno c = do
  assert (is_connection conn c.connection)
  let c' = record c { connection = none }
  if c.retry && c.connect_flag
      then (restart sockfd errno c.connector >>= λ connector.
          some (record c' { connector = connector }))
      else some c'

-- What the destructor leaves: a connection, whose close callback is now one that only destroys it, or the
-- connector, which is stopped. (The timer that is set then does nothing.)
pub data Left : Type 0 where
  detached : ℕ → Left
  stopped : Connector → Left

abbrev pub leave : Bool → Connector → Option ℕ → Left
leave cancelled connector (some conn) = detached conn
leave cancelled connector none = stopped (Connector.stop cancelled connector)

unfoldable pub destroy : Bool → TcpClient → Left
destroy cancelled c = leave cancelled c.connector c.connection
