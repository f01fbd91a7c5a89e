-- ===== src/Kcp/KcpLayer/Tests.antt =====
-- A small ikcp, whose blocks keep the messages to send until the next update.
use libcpp.Prelude.{ℕ, ◌≡◌, none, some, List, [], ◌∷◌, arith, Returns}
use libcpp.Prelude.Bytes.{Bytes}
use libcpp.Kcp.KcpLayer.{Ikcp, KcpLayer, init, eventfd_write}
use libcpp.Kcp.KcpLayer.Handshake.{exchange, exchange_lem}
use libcpp.Kcp.KcpLayer.Server.{Known}

abbrev Cb : Type 0
Cb = List Bytes

abbrev first_byte : Bytes → ℕ
first_byte [] = 0
first_byte (x ∷ xs) = x

abbrev ikcp : Ikcp Cb
ikcp = record {
  create = λ conv. [];
  nodelay = λ cb. cb;
  update = λ now cb. ([], cb);
  input = λ msg cb. cb;
  send = λ msg cb. msg ∷ cb;
  recv = λ len cb. (cb, none);
  getconv = first_byte;
}

-- A server that has one connection.
abbrev server : KcpLayer Cb
server = record (init 7) {
  next_conv = 2;
  connections = λ k. record { kcpcb = some []; peer_addr = 0 };
}

exchange_lem_example :
    Returns
      (λ (to, s', c').
        (to ≡ 5)
        × (s'.connections 2 ≡ record { kcpcb = some []; peer_addr = 5 })
        × ((c'.connections 2).kcpcb ≡ some [])
        × (s'.conn_fd ≡ eventfd_write 2 0)
        × (c'.conn_fd ≡ eventfd_write 2 0))
      (exchange ikcp 9 5 7 server (init 7))
exchange_lem_example = exchange_lem ikcp 9 5 7 server (init 7) (omega arith)

server-Known : Known server
server-Known k a b q = cc
