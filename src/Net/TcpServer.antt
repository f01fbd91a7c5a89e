-- ===== src/Net/TcpServer.antt =====
-- src/net/TcpServer.h and src/net/TcpServer.cc. A connection is the number that its name ends in;
-- `none` is an assertion that fails.
pub mod Lives
pub mod Start
mod Tests
use libcpp.Prelude.{
  ℕ, ◌+◌, Bool, true, false, Option, none, some, List, [], ◌∷◌, ◌==◌, ◌||◌, if◌then◌else◌, ◌>>=◌,
  ◌>>◌, assert,
}

pub record TcpServer : Type 0 where
  pub started : Bool
  pub next_conn_id : ℕ
  pub connections : List ℕ

-- The constructor.
abbrev pub init : TcpServer
init = record { started = false; next_conn_id = 1; connections = [] }

-- The map's `count` and `erase`.
unfoldable pub has : ℕ → List ℕ → Bool
has id [] = false
has id (x ∷ l) = x == id || has id l

unfoldable pub erase : ℕ → List ℕ → List ℕ
erase id [] = []
erase id (x ∷ l) = if x == id then l else x ∷ erase id l

-- The changes of the map that the next two functions make.
unfoldable pub add : TcpServer → TcpServer
add s = record s {
  next_conn_id = s.next_conn_id + 1;
  connections =
      if has s.next_conn_id s.connections then s.connections else s.next_conn_id ∷ s.connections;
}

unfoldable pub forget : ℕ → TcpServer → TcpServer
forget id s = record s { connections = erase id s.connections }

-- With the new connection, which its loop is to establish.
unfoldable pub new_connection : Bool → TcpServer → Option (ℕ × TcpServer)
new_connection in_loop s = do assert in_loop; some (s.next_conn_id, add s)

unfoldable pub remove_connection_in_loop : Bool → ℕ → TcpServer → Option TcpServer
remove_connection_in_loop in_loop id s = do
  assert in_loop
  assert (has id s.connections)
  some (forget id s)
