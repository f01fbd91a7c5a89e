-- ===== src/Net/TcpClient/Again.antt =====
-- What follows the loss of a connection.
use libcpp.Prelude.{
  ℕ, ◌≡◌, refl, inl, inr, arith, true, false, ==_iff, none, some, ◌>>=◌, Returns, Returns-bind,
}
use libcpp.Net.Connector.{connected, start, start_in_loop, restart}
use libcpp.Net.Connector.Accounts.{Inv, restarts, step, step-Inv}
use libcpp.Net.TcpClient.{TcpClient, connect, remove_connection}

-- When its connection is lost, a client with retry on, that was not told to disconnect, starts to
-- connect again and fails no assertion, if its connector is in good order, connected, and has been reset.
pub remove_connection_lem :
    (conn sockfd errno : ℕ) (c : TcpClient)
    → Inv c.connector
    → c.connector.state ≡ connected
    → c.connector.resets ≡ 0
    → c.connection ≡ some conn
    → c.retry ≡ true
    → c.connect_flag ≡ true
    → Returns
        (λ c'. Inv c'.connector × (c'.connection ≡ none))
        (remove_connection conn sockfd errno c)
unfolding remove_connection step
remove_connection_lem conn sockfd errno c v s z e r f =
    rw (e, (==_iff conn conn).1 refl, r, f)
      (Returns-bind Inv _ (restart sockfd errno c.connector) _
        (elim (step-Inv (restarts sockfd errno) c.connector v (λ h. cc)) [
          | inl (k, (go, late)) ↦ absurd (omega arith)
          | inr i ↦ i
        ])
        λ k w. (w, refl))

-- A client without retry whose connection was lost cannot connect again: its connector is still
-- connected, and `connect` fails the assertion of `startInLoop`.
pub remove_then_connect :
    (conn sockfd errno sockfd' errno' : ℕ) (c : TcpClient)
    → c.connector.state ≡ connected
    → c.connection ≡ some conn
    → c.retry ≡ false
    → (remove_connection conn sockfd errno c >>= connect sockfd' errno') ≡ none
unfolding remove_connection connect start start_in_loop
remove_then_connect conn sockfd errno sockfd' errno' c s e r =
    rw (e, (==_iff conn conn).1 refl, r, s) refl
