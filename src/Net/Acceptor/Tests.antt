-- ===== src/Net/Acceptor/Tests.antt =====
-- Two descriptors and a failure, for a server with three loops.
use libcpp.Prelude.{◌+◌, ◌≡◌, refl, true, false, none, some, List, [], ◌∷◌, ◌>>=◌, Returns, count}
use libcpp.Net.Socket.{Inet, zeroed, accepted, refused, Accept4}
use libcpp.Net.Acceptor.{Acceptor}
use libcpp.Net.Acceptor.Served.{Serving, handle_reads, makes, served, handle_reads-served}
use libcpp.Net.TcpServer as TcpServer
use libcpp.Net.TcpServer.Start.{Serves, io_loops, made, start-Serves}
use libcpp.Net.TcpServer.Start as Start
use libcpp.Reactor.Channel as Channel
use libcpp.Reactor.EventLoopGroup.{EventLoopGroup, get_next_loop, get_next_loops}

abbrev inet : Inet
inet = record {
  htons = λ n. n;
  ntohs = λ n. n;
  htonl = λ n. n;
  inet_pton = λ ip. none;
  inet_ntop = λ n. [];
}

abbrev group : EventLoopGroup
group = record { started = true; num_threads = 3; next = 2; loops = 7 ∷ 8 ∷ 9 ∷ [] }

abbrev start : Acceptor × Serving
start = (
  record { accept_channel = Channel.init 3; listening = true; closed = [] },
  record { server = TcpServer.init; loops = group; made = [] },
)

abbrev results : List Accept4
results = accepted 5 zeroed ∷ refused 24 ∷ accepted 6 zeroed ∷ []

handle_reads_runs :
    handle_reads inet 1 results start
    ≡ some (served inet 1 results start (9 ∷ 7 ∷ [], record group { next = 1 }))
unfolding get_next_loop get_next_loops
handle_reads_runs = handle_reads-served inet 1 results start

-- A new server for two threads.
abbrev idle : Acceptor
idle = record { accept_channel = Channel.init 3; listening = false; closed = [] }

start-Serves_example :
    Returns
      (Serves inet (λ i. i + 7) 1 2 results idle)
      (Start.start true (λ i. i + 7) (count 0) (made 2 idle) >>= handle_reads inet 1 results)
start-Serves_example = start-Serves inet (λ i. i + 7) 1 2 results idle refl

made_runs :
    makes inet 1 1 results (io_loops (λ i. i + 7) 2 1 2)
    ≡ record { id = 1; sockfd = 5; peer = zeroed; io_loop = 7 }
      ∷ record { id = 2; sockfd = 6; peer = zeroed; io_loop = 8 }
      ∷ []
made_runs = refl
