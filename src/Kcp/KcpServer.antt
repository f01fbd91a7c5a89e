-- ===== src/Kcp/KcpServer.antt =====
-- src/kcp/KcpServer.h and KcpServer.cc, and the same in src/kcp/KcpClient.h and KcpClient.cc, which keeps no
-- set of connections. `none` is also a length below 0.
pub mod Serve
mod Tests
use libcpp.Prelude.{
  ℕ, ◌%◌, ◌^◌, Bool, true, false, ◌&&◌, ◌||◌, Option, none, some, List, [], ◌∷◌, ◌++◌, ◌>>=◌,
  if◌then◌else◌, ◌==◌, ltb,
}
use libcpp.Prelude.Bytes.{Bytes}
use libcpp.Kcp.KcpLayer.{Ikcp, KcpLayer, get_connection_conv, receive}
use libcpp.Kcp.KcpLayer as KcpLayer

-- With the ids that `onConnection` was called for, and what `onMessage` was given.
pub record KcpServer (Cb : Type 0) : Type 0 where
  pub kcp : KcpLayer Cb
  pub connections : List ℕ
  pub cur_conv : ℕ
  pub datagram : Bytes
  pub called : List ℕ
  pub heard : List Bytes

abbrev pub insert : ℕ → List ℕ → List ℕ
insert conv [] = conv ∷ []
insert conv (c ∷ l) = let rest = insert conv l in if conv == c then c ∷ l else c ∷ rest

module _ {Cb : Type 0} where
  -- `curConv_` is not initialized: it is `junk`.
  abbrev pub init : ℕ → ℕ → KcpServer Cb
  init addr junk = record {
    kcp = KcpLayer.init addr;
    connections = [];
    cur_conv = junk;
    datagram = [];
    called = [];
    heard = [];
  }

  -- An id that is not positive, as an int64_t, is for a close, and not handled.
  unfoldable pub handle_connection : KcpServer Cb → KcpServer Cb
  handle_connection s =
      let (conv, kcp) = get_connection_conv s.kcp in
      if ltb 0 conv && ltb conv (2 ^ 63)
      then record s {
        kcp = kcp;
        cur_conv = conv % 2 ^ 32;
        connections = insert (conv % 2 ^ 32) s.connections;
        called = s.called ++ (conv % 2 ^ 32 ∷ []);
      }
      else record s { kcp = kcp }

  abbrev pub hear : ℕ → Option Bytes → KcpLayer Cb → KcpServer Cb → Option (KcpServer Cb)
  hear conv none kcp s = none
  hear conv (some msg) kcp s =
      some (record s { kcp = kcp; cur_conv = conv; datagram = msg; heard = s.heard ++ (msg ∷ []) })

  module _ (ikcp : Ikcp Cb) (now : ℕ) where
    -- `datagram_` has 1500 bytes.
    unfoldable pub handle_read : KcpServer Cb → Option (KcpServer Cb)
    handle_read s = do (conv, got, kcp) ← receive ikcp now 1500 s.kcp; hear conv got kcp s

    unfoldable pub send : Bytes → KcpServer Cb → Option (KcpServer Cb)
    send msg s =
        KcpLayer.send ikcp now s.cur_conv msg s.kcp >>= λ kcp. some (record s { kcp = kcp })
