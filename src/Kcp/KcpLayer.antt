-- ===== src/Kcp/KcpLayer.antt =====
-- src/kcp/KcpLayer.h and src/kcp/KcpLayer.cc. An address is a number, 0 for one of zeros. The functions
-- of ikcp.c are the parameter `Ikcp`; a control block of ikcp is a value, and a null pointer `none`.
-- A result `none` is an access through a null pointer or behind an array, or an exception.
pub mod Handshake
pub mod Server
mod Tests
use libcpp.Prelude.{
  ℕ, ◌+◌, ◌-◌, ◌%◌, ◌^◌, Bool, true, false, Option, none, some, List, [], ◌∷◌, ◌++◌, map, ◌>>=◌,
  if◌then◌else◌, ◌==◌, ltb, length,
}
use libcpp.Prelude.Bytes.{Bytes}
use libcpp.Kcp.KcpUtils.{
  handshake_syn, is_handshake_syn, is_handshake_ack, is_close_packet, ack, conv_in,
}

-- What the layer calls, in words of ikcp.h. An update gives the packets that it hands to the output
-- callback; `recv` gives `none` for a negative result.
pub record Ikcp (Cb : Type 0) : Type 0 where
  pub create : ℕ → Cb
  pub nodelay : Cb → Cb
  pub update : ℕ → Cb → Cb × List Bytes
  pub input : Bytes → Cb → Cb
  pub send : Bytes → Cb → Cb
  pub recv : ℕ → Cb → Cb × Option Bytes
  pub getconv : Bytes → ℕ

pub record KcpConnInfo (Cb : Type 0) : Type 0 where
  pub kcpcb : Option Cb
  pub peer_addr : ℕ

-- `connections` gives the entry of each id: one that is not in the map is made by the `operator[]` that
-- asks for it, and has zeros. The eventfds are their counters, and `sent` is what sendto was given, with
-- the address.
pub record KcpLayer (Cb : Type 0) : Type 0 where
  pub inet_addr : ℕ
  pub data_fd : ℕ
  pub conn_fd : ℕ
  pub next_conv : ℕ
  pub connections : ℕ → KcpConnInfo Cb
  pub sent : List (ℕ × Bytes)

-- `write` of a number to an eventfd, which refuses one that its counter cannot take.
abbrev pub eventfd_write : ℕ → ℕ → ℕ
eventfd_write value counter =
    if ltb (counter + value) (2 ^ 64 - 1) then counter + value else counter

-- `read` into a variable that is 1 before, and stays so if the counter is 0.
abbrev pub eventfd_read : ℕ → ℕ
eventfd_read counter = if counter == 0 then 1 else counter

-- `datagram_` has 1500 bytes; a longer message is read behind it.
unfoldable pub recv_udp_msg : Bytes → Option Bytes
recv_udp_msg msg = if ltb 1500 (length msg) then none else some msg

module _ {Cb : Type 0} where
  abbrev pub no_entry : KcpConnInfo Cb
  no_entry = record { kcpcb = none; peer_addr = 0 }

  -- The constructor.
  abbrev pub init : ℕ → KcpLayer Cb
  init addr = record {
    inet_addr = addr;
    data_fd = 0;
    conn_fd = 0;
    next_conv = 1;
    connections = λ id. no_entry;
    sent = [];
  }

  abbrev pub set_entry : ℕ → KcpConnInfo Cb → KcpLayer Cb → KcpLayer Cb
  set_entry id info l = record l { connections = λ k. if k == id then info else l.connections k }

  abbrev pub set_kcpcb : ℕ → Cb → KcpLayer Cb → KcpLayer Cb
  set_kcpcb id cb l = set_entry id (record (l.connections id) { kcpcb = some cb }) l

  abbrev pub set_peer_addr : ℕ → ℕ → KcpLayer Cb → KcpLayer Cb
  set_peer_addr id peer l = set_entry id (record (l.connections id) { peer_addr = peer }) l

  abbrev pub sendto : ℕ → Bytes → KcpLayer Cb → KcpLayer Cb
  sendto addr buf l = record l { sent = l.sent ++ ((addr, buf) ∷ []) }

  unfoldable pub notify_data : ℕ → KcpLayer Cb → KcpLayer Cb
  notify_data conv l = record l { data_fd = eventfd_write conv l.data_fd }

  unfoldable pub notify_connection : ℕ → KcpLayer Cb → KcpLayer Cb
  notify_connection conv l = record l { conn_fd = eventfd_write conv l.conn_fd }

  unfoldable pub get_connection_conv : KcpLayer Cb → ℕ × KcpLayer Cb
  get_connection_conv l = (eventfd_read l.conn_fd, record l { conn_fd = 0 })

  abbrev pub connect : KcpLayer Cb → KcpLayer Cb
  connect l = sendto l.inet_addr handshake_syn l

  unfoldable pub send_udp_msg : ℕ → Bytes → KcpLayer Cb → KcpLayer Cb
  send_udp_msg conv buf l = sendto (l.connections conv).peer_addr buf l

  -- The calls of `output` for the packets of control block `conv`.
  unfoldable pub output : ℕ → List Bytes → KcpLayer Cb → KcpLayer Cb
  output conv [] l = l
  output conv (buf ∷ bufs) l = output conv bufs (send_udp_msg conv buf l)

  module _ (ikcp : Ikcp Cb) (now : ℕ) where
    -- The control block of `id`, updated. Its packets go out with the entry of `id`.
    unfoldable pub kcp_update : ℕ → Cb → KcpLayer Cb → KcpLayer Cb
    kcp_update id cb l =
        let (cb', packets) = ikcp.update (now % 2 ^ 32) cb in output id packets (set_kcpcb id cb' l)

    unfoldable pub handle_syn : ℕ → KcpLayer Cb → KcpLayer Cb
    handle_syn peer l =
        let conv = l.next_conv in
        let l1 = set_peer_addr conv peer (set_kcpcb conv (ikcp.create conv) l) in
        let l2 = kcp_update conv (ikcp.nodelay (ikcp.create conv)) l1 in
        let l3 = notify_connection conv (sendto peer (ack conv) l2) in
        record l3 { next_conv = (l3.next_conv + 1) % 2 ^ 32 }

    -- The address goes to the entry of `nextConv_`.
    unfoldable pub handle_ack : Bytes → ℕ → KcpLayer Cb → Option (KcpLayer Cb)
    handle_ack payload peer l = do
      number ← conv_in payload
      let id = number % 2 ^ 32
      let l1 = set_peer_addr l.next_conv peer (set_kcpcb id (ikcp.create id) l)
      some (notify_connection id (kcp_update id (ikcp.nodelay (ikcp.create id)) l1))

    unfoldable pub handle_data : Bytes → KcpLayer Cb → Option (KcpLayer Cb)
    handle_data payload l = do
      let id = ikcp.getconv payload
      cb ← (l.connections id).kcpcb
      let l1 = kcp_update id (ikcp.input payload cb) l
      some (if ltb 24 (length payload) then notify_data id l1 else l1)

    -- `msg` is the datagram that recvmsg gives, with its sender; it is empty if recvmsg fails.
    unfoldable pub handle_read : ℕ → Bytes → KcpLayer Cb → Option (KcpLayer Cb)
    handle_read peer msg l =
        if length msg == 0
        then some l
        else recv_udp_msg msg >>= λ payload.
            if is_handshake_syn payload
            then some (handle_syn peer l)
            else if is_handshake_ack payload
            then handle_ack payload peer l
            else if is_close_packet payload
            then some l
            else handle_data payload l

    unfoldable pub send : ℕ → Bytes → KcpLayer Cb → Option (KcpLayer Cb)
    send conv msg l =
        (l.connections conv).kcpcb >>= λ cb. some (kcp_update conv (ikcp.send msg cb) l)

    -- The id, and what ikcp_recv gives for a buffer of `len` bytes.
    unfoldable pub receive : ℕ → KcpLayer Cb → Option (ℕ × Option Bytes × KcpLayer Cb)
    receive len l = do
      let conv = eventfd_read l.data_fd % 2 ^ 32
      cb ← (l.connections conv).kcpcb
      let (cb', got) = ikcp.recv len cb
      some (conv, got, set_kcpcb conv cb' (record l { data_fd = 0 }))
