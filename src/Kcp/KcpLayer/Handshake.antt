-- ===== src/Kcp/KcpLayer/Handshake.antt =====
-- A handshake between two layers.
use libcpp.Prelude.{
  ℕ, ◌%◌, ◌^◌, ◌≤◌, ◌<◌, ◌≡◌, ◌≢◌, refl, ◌∙◌, ap, sym, false, Option, none, some, List, [], ◌∷◌,
  ◌++◌, map, append-nil, append_assoc, arith, ◌>>=◌, ltb, ◌==◌, ==_iff, length, length-append,
  Returns, Returns-bind, Returns-imp,
}
use libcpp.Prelude.Bytes.{Bytes, starts_with, bytes_eq}
use libcpp.Prelude.Decimal.{decimal, length-decimal}
use libcpp.Kcp.KcpUtils.{
  handshake_syn, handshake_ack, is_handshake_syn, ack, conv_in-ack, is_handshake_ack-ack,
  is_handshake_syn-ack,
}
use libcpp.Kcp.KcpLayer.{
  Ikcp, KcpLayer, init, eventfd_write, set_kcpcb, set_peer_addr, sendto, notify_connection,
  send_udp_msg, output, recv_udp_msg, kcp_update, handle_syn, handle_ack, handle_read, send,
}

abbrev pub last_sent : List (ℕ × Bytes) → Option (ℕ × Bytes)
last_sent [] = none
last_sent (x ∷ []) = some x
last_sent (x ∷ y ∷ l) = last_sent (y ∷ l)

last_sent-append : (l : List (ℕ × Bytes)) (x : ℕ × Bytes) → last_sent (l ++ (x ∷ [])) ≡ some x
last_sent-append [] x = refl
last_sent-append (y ∷ []) x = refl
last_sent-append (y ∷ z ∷ l) x = last_sent-append (z ∷ l) x

length-ack : (conv : ℕ) → conv < 2 ^ 32 → length (ack conv) ≤ 1500
length-ack conv h =
    omega (arith, length-append handshake_ack (decimal conv), length-decimal 9 conv (omega arith))

module _ {Cb : Type 0} where
  -- The packets all go to the address of the entry, and change nothing else.
  pub output_lem :
      (conv : ℕ) (bufs : List Bytes) (l : KcpLayer Cb)
      → output conv bufs l
        ≡ record l { sent = l.sent ++ map (λ b. ((l.connections conv).peer_addr, b)) bufs }
  unfolding output send_udp_msg
  output_lem conv [] l = ap (λ x. record l { sent = x }) (sym (append-nil l.sent))
  output_lem conv (b ∷ bufs) l =
      output_lem conv bufs (sendto (l.connections conv).peer_addr b l)
      ∙ ap (λ x. record l { sent = x }) (append_assoc l.sent _ _)

module _ {Cb : Type 0} (ikcp : Ikcp Cb) (now : ℕ) where
  -- The control block of a new connection.
  abbrev pub begun : ℕ → Cb
  begun conv = (ikcp.update (now % 2 ^ 32) (ikcp.nodelay (ikcp.create conv))).0

  pub handle_read-syn :
      (peer : ℕ) (l : KcpLayer Cb)
      → handle_read ikcp now peer handshake_syn l ≡ some (handle_syn ikcp now peer l)
  unfolding handle_read recv_udp_msg is_handshake_syn starts_with bytes_eq
  handle_read-syn peer l = refl

  pub handle_read-ack :
      (peer conv : ℕ) (l : KcpLayer Cb)
      → conv < 2 ^ 32
      → handle_read ikcp now peer (ack conv) l ≡ handle_ack ikcp now (ack conv) peer l
  unfolding handle_read recv_udp_msg
  handle_read-ack peer conv l h =
      rw (some_bytes, fits, is_handshake_syn-ack conv, is_handshake_ack-ack conv) refl
    where
      some_bytes : (length (ack conv) == 0) ≡ false
      some_bytes = ground (arith, length-append handshake_ack (decimal conv))

      fits : ltb 1500 (length (ack conv)) ≡ false
      fits = ground (arith, length-ack conv h)

  abbrev pub updated : ℕ → Cb → KcpLayer Cb → KcpLayer Cb
  updated id cb l = set_kcpcb id (ikcp.update (now % 2 ^ 32) cb).0 l

  -- An update changes the control block, and what was sent.
  pub kcp_update_lem :
      (id : ℕ) (cb : Cb) (l : KcpLayer Cb)
      → let l' = kcp_update ikcp now id cb l in l' ≡ record (updated id cb l) { sent = l'.sent }
  unfolding kcp_update
  kcp_update_lem id cb l =
      rw (output_lem id (ikcp.update (now % 2 ^ 32) cb).1 (updated id cb l)) refl

  -- The layer after the update that a new connection begins with; `l` has its entry.
  abbrev pub started : ℕ → KcpLayer Cb → KcpLayer Cb
  started id l = kcp_update ikcp now id (ikcp.nodelay (ikcp.create id)) l

  pub started_lem :
      (id : ℕ) (l : KcpLayer Cb)
      → started id l
        ≡ record (updated id (ikcp.nodelay (ikcp.create id)) l) { sent = (started id l).sent }
  started_lem id l = kcp_update_lem id (ikcp.nodelay (ikcp.create id)) l

  abbrev pub syn_entry : ℕ → ℕ → KcpLayer Cb → KcpLayer Cb
  syn_entry conv peer l = set_peer_addr conv peer (set_kcpcb conv (ikcp.create conv) l)

  abbrev ack_entry : ℕ → ℕ → KcpLayer Cb → KcpLayer Cb
  ack_entry conv peer l = set_peer_addr l.next_conv peer (set_kcpcb conv (ikcp.create conv) l)

  -- What the server keeps of a new connection: its control block and address, and the answer is the last
  -- that was sent.
  pub handle_syn_lem :
      (peer : ℕ) (l : KcpLayer Cb)
      → let l' = handle_syn ikcp now peer l in
        (l'.connections l.next_conv ≡ record { kcpcb = some (begun l.next_conv); peer_addr = peer })
        × (last_sent l'.sent ≡ some (peer, ack l.next_conv))
        × (l'.conn_fd ≡ eventfd_write l.next_conv l.conn_fd)
  unfolding handle_syn notify_connection
  handle_syn_lem peer l =
      let e = started_lem l.next_conv (syn_entry l.next_conv peer l) in
      (
        ap (λ k. k.connections l.next_conv) e ∙ rw ((==_iff l.next_conv l.next_conv).1 refl) refl,
        last_sent-append (started l.next_conv (syn_entry l.next_conv peer l)).sent
            (peer, ack l.next_conv),
        ap (λ k. eventfd_write l.next_conv k.conn_fd) e,
      )

  -- What the client keeps. The address of the server is that of another entry.
  handle_ack_lem :
      (peer conv : ℕ) (l : KcpLayer Cb)
      → conv < 2 ^ 32
      → Returns
          (λ l'.
            ((l'.connections conv).kcpcb ≡ some (begun conv))
            × (l'.conn_fd ≡ eventfd_write conv l.conn_fd)
            × (conv ≢ l.next_conv
                → (l'.connections conv).peer_addr ≡ (l.connections conv).peer_addr))
          (handle_ack ikcp now (ack conv) peer l)
  unfolding handle_ack notify_connection
  handle_ack_lem peer conv l h =
      let e = started_lem conv (ack_entry conv peer l) in
      rw (conv_in-ack conv h, small)
        (
          ap (λ k. (k.connections conv).kcpcb) e ∙ rw ((==_iff conv conv).1 refl) refl,
          ap (λ k. eventfd_write conv k.conn_fd) e,
          λ other.
              ap (λ k. (k.connections conv).peer_addr) e
              ∙ (let n : (conv == l.next_conv) ≡ false = ground (arith, other) in
                  rw ((==_iff conv conv).1 refl, n) refl),
        )
    where
      small : conv % 2 ^ 32 ≡ conv
      small = omega (arith, h)

  -- A server is given the handshake of `client`, and a layer the last message that it then sent, as
  -- from `server`. With the address that the message is for.
  abbrev pub exchange : ℕ → ℕ → KcpLayer Cb → KcpLayer Cb → Option (ℕ × KcpLayer Cb × KcpLayer Cb)
  exchange client server s c = do
    s' ← handle_read ikcp now client handshake_syn s
    (to, msg) ← last_sent s'.sent
    c' ← handle_read ikcp now server msg c
    some (to, s', c')

  -- Any server and any client, while the server has ids left, end a handshake, and with one id: the
  -- server's answer is for the client's address, both have a new control block of that id, the server
  -- keeps the client's address with it, and the id is added to the eventfds of both.
  pub exchange_lem :
      (client server : ℕ) (s c : KcpLayer Cb)
      → s.next_conv < 2 ^ 32
      → Returns
          (λ (to, s', c').
            (to ≡ client)
            × (s'.connections s.next_conv
                ≡ record { kcpcb = some (begun s.next_conv); peer_addr = client })
            × ((c'.connections s.next_conv).kcpcb ≡ some (begun s.next_conv))
            × (s'.conn_fd ≡ eventfd_write s.next_conv s.conn_fd)
            × (c'.conn_fd ≡ eventfd_write s.next_conv c.conn_fd))
          (exchange client server s c)
  exchange_lem client server s c h =
      let (kept, answer, told) = handle_syn_lem client s in
      rw (handle_read-syn client s, answer, handle_read-ack server s.next_conv c h)
        (Returns-bind _ _ (handle_ack ikcp now (ack s.next_conv) server c) _
          (handle_ack_lem server s.next_conv c h)
          λ c' (block, told', other). (refl, kept, block, told, told'))

  -- A new client that is given any other id than 1 loses the server's address: all packets of what it
  -- sends then go to the address of zeros.
  pub peer_lost :
      (server conv : ℕ) (addr : ℕ)
      → conv < 2 ^ 32
      → conv ≢ 1
      → Returns
          (λ c'.
            (msg : Bytes)
            → Returns
                (λ c''.
                  c''.sent
                  ≡ c'.sent
                    ++ map
                        (λ packet. (0, packet))
                        (ikcp.update (now % 2 ^ 32) (ikcp.send msg (begun conv))).1)
                (send ikcp now conv msg c'))
          (handle_read ikcp now server (ack conv) (init addr))
  unfolding send kcp_update
  peer_lost server conv addr h other = rw (handle_read-ack server conv (init addr) h) (
      Returns-imp _ _ (handle_ack ikcp now (ack conv) server (init addr))
        (handle_ack_lem server conv (init addr) h)
        λ c' (block, told, same) msg.
          rw
            (
              block,
              output_lem conv (ikcp.update (now % 2 ^ 32) (ikcp.send msg (begun conv))).1
                  (updated conv (ikcp.send msg (begun conv)) c'),
              (==_iff conv conv).1 refl,
              same other,
            )
            refl)
