-- ===== src/Kcp/KcpServer/Tests.antt =====
-- The small ikcp of Kcp/KcpLayer/Tests, in short, and a new server.
use libcpp.Prelude.{◌≡◌, refl, none, List, [], ◌∷◌, ◌++◌, map, arith, Returns}
use libcpp.Prelude.Bytes.{Bytes}
use libcpp.Kcp.KcpLayer.{Ikcp, handle_syn}
use libcpp.Kcp.KcpServer.{KcpServer, init}
use libcpp.Kcp.KcpServer.Serve.{serve, serve_lem}

abbrev ikcp : Ikcp (List Bytes)
ikcp = record {
  create = λ conv. [];
  nodelay = λ cb. cb;
  update = λ now cb. ([], cb);
  input = λ msg cb. cb;
  send = λ msg cb. msg ∷ cb;
  recv = λ len cb. (cb, none);
  getconv = λ msg. 0;
}

abbrev server : KcpServer (List Bytes)
server = init 7 0

serve_lem_example :
    Returns
      (λ s'.
        (s'.cur_conv ≡ 1)
        × (s'.connections ≡ 1 ∷ [])
        × (s'.called ≡ 1 ∷ [])
        × (s'.kcp.sent
            ≡ (handle_syn ikcp 9 5 server.kcp).sent ++ map (λ packet. (5, packet)) ((3 ∷ []) ∷ [])))
      (serve ikcp 9 5 (3 ∷ []) server)
serve_lem_example = serve_lem ikcp 9 5 (3 ∷ []) server refl (omega arith) (omega arith)
