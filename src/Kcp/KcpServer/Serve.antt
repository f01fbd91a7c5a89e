-- ===== src/Kcp/KcpServer/Serve.antt =====
-- A server that is called by a client.
use libcpp.Prelude.{
  ℕ, ◌%◌, ◌^◌, ◌<◌, ◌≡◌, refl, ◌∙◌, ap, true, false, Option, some, [], ◌∷◌, ◌++◌, map, arith, ◌>>=◌,
  ltb, ◌==◌, ==_iff, Returns,
}
use libcpp.Prelude.Bytes.{Bytes}
use libcpp.Kcp.KcpUtils.{handshake_syn}
use libcpp.Kcp.KcpLayer.{
  Ikcp, KcpLayer, eventfd_write, get_connection_conv, kcp_update, handle_syn, output,
}
use libcpp.Kcp.KcpLayer as KcpLayer
use libcpp.Kcp.KcpLayer.Handshake.{begun, updated, handle_read-syn, handle_syn_lem, output_lem}
use libcpp.Kcp.KcpServer.{KcpServer, handle_connection, send, insert}

module _ {Cb : Type 0} (ikcp : Ikcp Cb) (now : ℕ) where
  -- A handshake comes in, the event loop calls `handleConnection`, and `onConnection` sends a message.
  abbrev pub serve : ℕ → Bytes → KcpServer Cb → Option (KcpServer Cb)
  serve peer msg s = do
    kcp ← KcpLayer.handle_read ikcp now peer handshake_syn s.kcp
    send ikcp now msg (handle_connection (record s { kcp = kcp }))

  -- A server whose eventfd was read before hears of the new connection by its own id, which goes into the
  -- set; and what it then sends goes, as the packets that ikcp makes of it, to the address that the
  -- handshake came from. The id is less than 2 ^ 32 and not 0.
  pub serve_lem :
      (peer : ℕ) (msg : Bytes) (s : KcpServer Cb)
      → s.kcp.conn_fd ≡ 0
      → 0 < s.kcp.next_conv
      → s.kcp.next_conv < 2 ^ 32
      → Returns
          (λ s'.
            (s'.cur_conv ≡ s.kcp.next_conv)
            × (s'.connections ≡ insert s.kcp.next_conv s.connections)
            × (s'.called ≡ s.called ++ (s.kcp.next_conv ∷ []))
            × (s'.kcp.sent
                ≡ (handle_syn ikcp now peer s.kcp).sent
                  ++ map
                      (λ packet. (peer, packet))
                      (ikcp.update
                        (now % 2 ^ 32)
                        (ikcp.send msg (begun ikcp now s.kcp.next_conv))).1))
          (serve peer msg s)
  unfolding handle_connection get_connection_conv send KcpLayer.send kcp_update
  serve_lem peer msg s z p h =
      let conv = s.kcp.next_conv in
      let l = handle_syn ikcp now peer s.kcp in
      let (entry, answer, told) = handle_syn_lem ikcp now peer s.kcp in
      let counter : l.conn_fd ≡ conv = told ∙ ap (eventfd_write conv) z ∙ ground (arith, h) in
      let woken : (conv == 0) ≡ false = ground (arith, p) in
      let pos : ltb 0 conv ≡ true = ground (arith, p) in
      let small : ltb conv (2 ^ 63) ≡ true = ground (arith, h) in
      let fits : conv % 2 ^ 32 ≡ conv = omega (arith, h) in
      let cb = ikcp.send msg (begun ikcp now conv) in
      let block : (l.connections conv).kcpcb ≡ some (begun ikcp now conv) =
        ap (λ c. c.kcpcb) entry in
      let from_peer : (l.connections conv).peer_addr ≡ peer = ap (λ c. c.peer_addr) entry in
      let here : (conv == conv) ≡ true = (==_iff conv conv).1 refl in
      rw (handle_read-syn ikcp now peer s.kcp, counter, woken)
        (rw (pos, small)
          (rw
            (
              fits,
              block,
              output_lem conv (ikcp.update (now % 2 ^ 32) cb).1
                  (updated ikcp now conv cb (record l { conn_fd = 0 })),
              here,
              from_peer,
            )
            (refl, refl, refl, refl)))
