-- ===== src/Net/Acceptor/Served.antt =====
-- The connections that a server makes of what its acceptor accepts.
use libcpp.Prelude.{
  ℕ, ◌+◌, ◌≡◌, refl, sym, ap, ◌∙◌, inl, inr, true, Option, some, List, [], ◌∷◌, ◌++◌, append_assoc,
  append-nil, ltb, if◌then◌else◌, ◌>>=◌, length, Option-cases,
}
use libcpp.Net.Socket.{
  Inet, SockAddr, Accept4, accepted, refused, socket_accept, any_address, accept,
}
use libcpp.Net.Acceptor.{Acceptor, handle_read}
use libcpp.Net.TcpServer.{TcpServer, add, new_connection}
use libcpp.Reactor.EventLoopGroup.{EventLoopGroup, get_next_loop, get_next_loops}

-- A TcpConnection as `newConnection` makes it: its number, its descriptor, its peer, and its loop.
pub record Made : Type 0 where
  pub id : ℕ
  pub sockfd : ℕ
  pub peer : SockAddr
  pub io_loop : ℕ

-- A server with its loops, and the connections that it made so far.
pub record Serving : Type 0 where
  pub server : TcpServer
  pub loops : EventLoopGroup
  pub made : List Made

-- `TcpServer::newConnection`; `base` is the address of the server's loop.
unfoldable pub connect : ℕ → ℕ → SockAddr → Serving → Option Serving
connect base sockfd peer s = do
  (id, server) ← new_connection true s.server
  (io_loop, loops) ← get_next_loop base true s.loops
  some (record {
    server = server;
    loops = loops;
    made = s.made ++ (record { id = id; sockfd = sockfd; peer = peer; io_loop = io_loop } ∷ []);
  })

-- What was accepted, in order.
abbrev pub fds : List Accept4 → List ℕ
fds [] = []
fds (accepted connfd peer ∷ rs) = connfd ∷ fds rs
fds (refused e ∷ rs) = fds rs

-- The server once they are accepted.
abbrev pub adds : List Accept4 → TcpServer → TcpServer
adds [] server = server
adds (accepted connfd peer ∷ rs) server = adds rs (add server)
adds (refused e ∷ rs) server = adds rs server

module _ (inet : Inet) (base : ℕ) where
  -- `handleRead` of the acceptor, for each result of accept4.
  abbrev pub handle_reads : List Accept4 → Acceptor × Serving → Option (Acceptor × Serving)
  handle_reads [] st = some st
  handle_reads (r ∷ rs) st = handle_read inet true (some (connect base)) r st >>= handle_reads rs

  -- A connection for each descriptor, numbered from `id` on, on the loops that are given.
  abbrev pub makes : ℕ → List Accept4 → List ℕ → List Made
  makes id [] ls = []
  makes id (refused e ∷ rs) ls = makes id rs ls
  makes id (accepted connfd peer ∷ rs) [] = []
  makes id (accepted connfd peer ∷ rs) (l ∷ ls) =
      record {
        id = id;
        sockfd = connfd;
        peer = if ltb 0 connfd then peer else any_address inet 0;
        io_loop = l;
      }
      ∷ makes (id + 1) rs ls

  abbrev pub served :
      List Accept4 → Acceptor × Serving → List ℕ × EventLoopGroup → Acceptor × Serving
  served rs (a, s) (ls, loops) = (
    a,
    record {
      server = adds rs s.server;
      loops = loops;
      made = s.made ++ makes s.server.next_conn_id rs ls;
    },
  )

  -- Whatever accept4 returns, call by call: the acceptor has the server make one connection for each descriptor
  -- that was accepted, in their order, with the numbers that follow, each on the loop that getNextLoop gives
  -- next; it closes none of the descriptors, and a failure of accept4 changes nothing.
  pub handle_reads-served :
      (rs : List Accept4) (st : Acceptor × Serving)
      → handle_reads rs st
        ≡ (get_next_loops (length (fds rs)) base st.1.loops >>= λ r. some (served rs st r))
  unfolding handle_read socket_accept accept connect new_connection get_next_loops add
  handle_reads-served [] (a, s) =
      ap (λ ms. some (a, record s { made = ms })) (sym (append-nil s.made))
  handle_reads-served (refused e ∷ rs) (a, s) = handle_reads-served rs (a, s)
  handle_reads-served (accepted connfd peer ∷ rs) (a, s) =
      elim (Option-cases (get_next_loop base true s.loops)) [
        | inl e ↦ rw e refl
        | inr ((l, g), e) ↦ rw e (
            handle_reads-served rs (a, after l g)
            ∙ elim (Option-cases (get_next_loops (length (fds rs)) base g)) [
              | inl k ↦ rw k refl
              | inr ((ls, g'), k) ↦ rw k (
                  ap
                    (λ ms.
                      some (a, record { server = adds rs (add s.server); loops = g'; made = ms }))
                    (append_assoc s.made (first l ∷ []) (makes (s.server.next_conn_id + 1) rs ls)))
            ])
      ]
    where
      first : ℕ → Made
      first l = record {
        id = s.server.next_conn_id;
        sockfd = connfd;
        peer = if ltb 0 connfd then peer else any_address inet 0;
        io_loop = l;
      }

      after : ℕ → EventLoopGroup → Serving
      after l g = record { server = add s.server; loops = g; made = s.made ++ (first l ∷ []) }
