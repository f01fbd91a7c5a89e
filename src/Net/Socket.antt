-- ===== src/Net/Socket.antt =====
-- src/net/Socket.h, Socket.cc, InetAddress.h and InetAddress.cc. What the system calls return, and the
-- conversions of the C library (byte order, inet_pton, inet_ntop), are arguments. `logs` has what is logged.
pub mod HostPort
mod Tests
use libcpp.Prelude.{
  ℕ, Bool, ◌&&◌, ◌||◌, true, false, Option, none, some, List, [], ◌∷◌, ◌++◌, ltb, ◌==◌,
  if◌then◌else◌, SysResult, count, fail,
}
use libcpp.Prelude.Bytes.{Bytes, codes}
use libcpp.Prelude.Decimal.{decimal}
use libcpp.Datetime.TimeStamp.{snprintf}
use libcpp.Logging.Logger.{LogLevel, warn, error, fatal}

-- `struct sockaddr_in`, in network byte order.
pub record SockAddr : Type 0 where
  pub sin_family : ℕ
  pub sin_port : ℕ
  pub s_addr : ℕ

abbrev pub af_inet : ℕ
af_inet = 2

abbrev pub zeroed : SockAddr
zeroed = record { sin_family = 0; sin_port = 0; s_addr = 0 }

-- `inet_pton` gives the address, if the text is one.
pub record Inet : Type 0 where
  pub htons : ℕ → ℕ
  pub ntohs : ℕ → ℕ
  pub htonl : ℕ → ℕ
  pub inet_pton : Bytes → Option ℕ
  pub inet_ntop : ℕ → Bytes

abbrev pub Logs : Type 0
Logs = List (LogLevel × Bytes)

module _ (inet : Inet) where
  -- The address as it is left, and what is logged.
  abbrev pub with_host : Option ℕ → SockAddr → SockAddr × Logs
  with_host none addr = (addr, (error, codes "sockets::fromHostPort") ∷ [])
  with_host (some s_addr) addr = (record addr { s_addr = s_addr }, [])

  unfoldable pub from_host_port : Bytes → ℕ → SockAddr → SockAddr × Logs
  from_host_port ip port addr =
      with_host (inet.inet_pton ip)
        (record addr { sin_family = af_inet; sin_port = inet.htons port })

  unfoldable pub to_host_port : ℕ → SockAddr → Bytes
  to_host_port size addr =
      snprintf size
        (inet.inet_ntop addr.s_addr ++ (codes ":" ++ decimal (inet.ntohs addr.sin_port)))

  -- The constructors of InetAddress; INADDR_ANY is 0.
  unfoldable pub any_address : ℕ → SockAddr
  any_address port = record {
    sin_family = af_inet;
    sin_port = inet.htons port;
    s_addr = inet.htonl 0;
  }

  unfoldable pub inet_address : Bytes → ℕ → SockAddr × Logs
  inet_address ip port = from_host_port ip port zeroed

  -- `toHostPort` of InetAddress.
  unfoldable pub inet_to_host_port : SockAddr → Bytes
  inet_to_host_port addr = to_host_port 32 addr

-- What `accept4` gives: a descriptor with the address of the peer, or errno.
pub data Accept4 : Type 0 where
  accepted : ℕ → SockAddr → Accept4
  refused : ℕ → Accept4

abbrev pub eperm : ℕ
eperm = 1

abbrev pub eintr : ℕ
eintr = 4

abbrev pub eagain : ℕ
eagain = 11

abbrev pub emfile : ℕ
emfile = 24

abbrev pub eproto : ℕ
eproto = 71

abbrev pub econnaborted : ℕ
econnaborted = 103

-- The cases of `switch` in `sockets::accept`.
abbrev pub is_expected : ℕ → Bool
is_expected e =
    e == eagain || e == econnaborted || e == eintr || e == eproto || e == eperm || e == emfile

-- EBADF, EFAULT, EINVAL, ENFILE, ENOBUFS, ENOMEM, ENOTSOCK and EOPNOTSUPP.
abbrev pub is_unexpected : ℕ → Bool
is_unexpected e =
    e == 9 || e == 14 || e == 22 || e == 23 || e == 105 || e == 12 || e == 88 || e == 95

abbrev pub accept_logs : ℕ → Logs
accept_logs e =
    if is_expected e
    then []
    else if is_unexpected e
    then (warn, codes "unexpected error of ::accept " ++ decimal e) ∷ []
    else (warn, codes "unknown error of ::accept " ++ decimal e) ∷ []

-- The descriptor or errno, and `addr`.
unfoldable pub accept : Accept4 → SockAddr → SysResult × SockAddr × Logs
accept (accepted connfd peer) addr = (count connfd, peer, [])
accept (refused e) addr = (fail e, addr, (error, codes "sockets::accept") ∷ accept_logs e)

-- `Socket::accept`: what `peerAddr` then is, with the result.
abbrev pub accept_into : SockAddr → SysResult × SockAddr × Logs → SysResult × SockAddr × Logs
accept_into peer_addr (count connfd, addr, logs) =
    (count connfd, if ltb 0 connfd then addr else peer_addr, logs)
accept_into peer_addr (fail e, addr, logs) = (fail e, peer_addr, logs)

unfoldable pub socket_accept : Accept4 → SockAddr → SysResult × SockAddr × Logs
socket_accept result peer_addr = accept_into peer_addr (accept result zeroed)

-- `getLocalAddr` and `getPeerAddr`: without a result the address is zero.
abbrev pub local_addr : Option SockAddr → SockAddr
local_addr none = zeroed
local_addr (some addr) = addr

abbrev pub peer_addr : Option SockAddr → SockAddr
peer_addr none = zeroed
peer_addr (some addr) = addr

unfoldable pub is_self_connect : Option SockAddr → Option SockAddr → Bool
is_self_connect getsockname getpeername =
    let l = local_addr getsockname in
    let p = peer_addr getpeername in l.sin_port == p.sin_port && l.s_addr == p.s_addr

-- SO_ERROR, or the errno of getsockopt.
pub data SockOpt : Type 0 where
  optval : ℕ → SockOpt
  no_opt : ℕ → SockOpt

unfoldable pub get_socket_error : SockOpt → ℕ
get_socket_error (optval e) = e
get_socket_error (no_opt errno) = errno

-- `createSockfdNonBlockingOrDie`, `bindOrDie` and `listenOrDie`: a failure is logged as fatal, which ends the
-- process.
unfoldable pub or_die : SysResult → Option ℕ
or_die (count n) = some n
or_die (fail e) = none
