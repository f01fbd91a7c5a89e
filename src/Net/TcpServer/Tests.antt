-- ===== src/Net/TcpServer/Tests.antt =====
-- A server with one connection that is about to be removed.
use libcpp.Prelude.{◌≡◌, refl, true, false, [], ◌∷◌, Returns}
use libcpp.Net.TcpServer.{init, has, add, remove_connection_in_loop}
use libcpp.Net.TcpServer.Lives.{
  System, unborn, fresh, live, closing, becomes, Reach, start, later, accepts, establishes, closes,
  remove_connection_in_loop_lem,
}

abbrev one_closing : System
one_closing = record {
  server = record init { next_conn_id = 2; connections = 1 ∷ [] };
  lives = becomes (becomes (becomes (λ id. unborn) 1 fresh) 1 live) 1 closing;
}

one_closing-Reach : Reach one_closing
unfolding add has
one_closing-Reach = later (later (later start accepts) (establishes refl)) (closes refl)

remove_connection_in_loop_lem_example :
    Returns
      (λ server'. has 1 server'.connections ≡ false)
      (remove_connection_in_loop true 1 one_closing.server)
remove_connection_in_loop_lem_example = remove_connection_in_loop_lem 1 one_closing-Reach refl
